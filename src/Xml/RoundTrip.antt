-- ===== src/Xml/RoundTrip.antt =====
-- `parse_xml_attribute` reads back a value that was written between two tags.
use client_shared_lib.Base.{
  ℕ, suc, ◌+◌, ◌-◌, ◌<◌, ◌≡◌, refl, ap, ◌∙◌, true, false, some, List, [], ◌∷◌, ◌++◌, arith, length,
  drop, length-append, drop-append, drop-add,
}
use client_shared_lib.Xml.{absent, value_at, starts_with, scan, is_text, parse_xml_attribute}
use client_shared_lib.Xml.Element.{
  Clear, starts_with-append, round-start, round-end, scan-Clear, scan-absent,
}

length-pos : (key text : List ℕ) → starts_with key text ≡ false → 0 < length key
unfolding starts_with
length-pos [] text s = cc
length-pos (c ∷ key) text s = omega arith

-- `<KEY>value</KEY>` in a message
abbrev pub element : (pre start_key value end_key post : List ℕ) → List ℕ
element pre start_key value end_key post = pre ++ (start_key ++ (value ++ (end_key ++ post)))

length-element :
    (pre start_key value end_key post : List ℕ)
    → length (element pre start_key value end_key post)
      ≡ length pre + (length start_key + (length value + (length end_key + length post)))
length-element pre start_key value end_key post = omega (
  arith,
  length-append pre (start_key ++ (value ++ (end_key ++ post))),
  length-append start_key (value ++ (end_key ++ post)),
  length-append value (end_key ++ post),
  length-append end_key post,
)

module _ (start_key end_key post : List ℕ) (c : ℕ) (v : List ℕ) where
  -- from the start tag on
  scan-tag :
      (input : List ℕ) (in_len k p j : ℕ)
      → drop p input ≡ start_key ++ (c ∷ (v ++ (end_key ++ post)))
      → Clear start_key end_key v (end_key ++ post)
      → starts_with start_key (end_key ++ post) ≡ false
      → p + length start_key + 1 + length v < in_len
      → scan (suc (length v + suc k)) input in_len start_key end_key p j
        ≡ value_at (p + length start_key + 1 + length v) (p + length start_key)
  scan-tag input in_len k p j at within first inside =
      round-start start_key end_key input in_len (length v + suc k) _ p j (omega arith) at
        (starts_with-append start_key _)
      ∙ scan-Clear start_key end_key input in_len (suc k) v (end_key ++ post)
          (p + length start_key + 1) (p + length start_key) at_value within (omega arith)
      ∙ round-end start_key end_key input in_len k (end_key ++ post)
          (p + length start_key + 1 + length v) (p + length start_key) (omega arith) at_end first
          (starts_with-append end_key post)
    where
      at_value : drop (p + length start_key + 1) input ≡ v ++ (end_key ++ post)
      at_value =
          drop-add (p + length start_key) 1 input
          ∙ ap (drop 1) (
              drop-add p (length start_key) input
              ∙ ap (drop (length start_key)) at
              ∙ drop-append start_key (c ∷ (v ++ (end_key ++ post))))

      at_end : drop (p + length start_key + 1 + length v) input ≡ end_key ++ post
      at_end =
          drop-add (p + length start_key + 1) (length v) input
          ∙ ap (drop (length v)) at_value
          ∙ drop-append v (end_key ++ post)

  -- The nonempty value between two tags in a text is found at its place with its length, if no
  -- tag begins in front of the element, none begins in the value behind its first byte, the end
  -- tag does not begin with the start tag, and the end tag is not empty.
  pub parse_xml_attribute-element :
      (pre : List ℕ)
      → is_text (element pre start_key (c ∷ v) end_key post) ≡ true
      → Clear start_key end_key pre (start_key ++ (c ∷ (v ++ (end_key ++ post))))
      → Clear start_key end_key v (end_key ++ post)
      → starts_with start_key (end_key ++ post) ≡ false
      → 0 < length end_key
      → parse_xml_attribute
          (some (element pre start_key (c ∷ v) end_key post))
          (length (element pre start_key (c ∷ v) end_key post))
          start_key
          end_key
        ≡ record { ret = true; s = some (length pre + length start_key); len = length (c ∷ v) }
  unfolding parse_xml_attribute
  parse_xml_attribute-element pre text before within first some_end = rw text (
      ap (λ n. scan n input in_len start_key end_key 0 0) fuel
      ∙ scan-Clear start_key end_key input in_len (suc (length v + suc k)) pre _ 0 0 refl before
          (omega (arith, size))
      ∙ scan-tag input in_len k (0 + length pre) 0 at within first (omega (arith, size))
      ∙ ground arith)
    where
      input : List ℕ
      input = element pre start_key (c ∷ v) end_key post

      in_len : ℕ
      in_len = length input

      size :
          in_len
          ≡ length pre + (length start_key + (suc (length v) + (length end_key + length post)))
      size = length-element pre start_key (c ∷ v) end_key post

      k : ℕ
      k = length start_key + length end_key + length post - 1

      fuel : in_len ≡ length pre + suc (length v + suc k)
      fuel = omega (arith, size, length-pos start_key (end_key ++ post) first)

      at : drop (0 + length pre) input ≡ start_key ++ (c ∷ (v ++ (end_key ++ post)))
      at = let e : 0 + length pre ≡ length pre = omega arith in rw e (drop-append pre _)

module _ (start_key end_key post : List ℕ) where
  -- An empty element in a text is not found, if no tag begins in front of it and none begins
  -- behind the first byte of its end tag.
  pub parse_xml_attribute-empty :
      (pre : List ℕ) (t : ℕ) (tail : List ℕ)
      → end_key ++ post ≡ t ∷ tail
      → is_text (pre ++ (start_key ++ (t ∷ tail))) ≡ true
      → Clear start_key end_key pre (start_key ++ (t ∷ tail))
      → Clear start_key end_key tail []
      → parse_xml_attribute
          (some (element pre start_key [] end_key post))
          (length (element pre start_key [] end_key post))
          start_key
          end_key
        ≡ absent
  unfolding parse_xml_attribute
  parse_xml_attribute-empty pre t tail split text before behind =
      rw (split, text)
        (ap (λ n. scan n input in_len start_key end_key 0 0) fuel
          ∙ scan-Clear start_key end_key input in_len (suc k) pre (start_key ++ (t ∷ tail)) 0 0 refl
              before (omega (arith, size))
          ∙ round-start start_key end_key input in_len k (start_key ++ (t ∷ tail)) (0 + length pre)
              0 (omega (arith, size)) at (starts_with-append start_key (t ∷ tail))
          ∙ scan-absent start_key end_key input in_len k tail _ _ at_tail behind
              (omega (arith, size)))
    where
      input : List ℕ
      input = pre ++ (start_key ++ (t ∷ tail))

      in_len : ℕ
      in_len = length input

      size : in_len ≡ length pre + (length start_key + suc (length tail))
      size =
          omega
            (arith, length-append pre (start_key ++ (t ∷ tail)), length-append start_key (t ∷ tail))

      k : ℕ
      k = length start_key + length tail

      fuel : in_len ≡ length pre + suc k
      fuel = omega (arith, size)

      at : drop (0 + length pre) input ≡ start_key ++ (t ∷ tail)
      at = let e : 0 + length pre ≡ length pre = omega arith in rw e (drop-append pre _)

      at_tail : drop (0 + length pre + length start_key + 1) input ≡ tail
      at_tail =
          drop-add (0 + length pre + length start_key) 1 input
          ∙ ap (drop 1) (
              drop-add (0 + length pre) (length start_key) input
              ∙ ap (drop (length start_key)) at
              ∙ drop-append start_key (t ∷ tail))
