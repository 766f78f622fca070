-- ===== src/Xml/Element.antt =====
-- A tagged value is found, and an empty one is not.
use client_shared_lib.Base.{
  ℕ, zero, suc, ◌+◌, ◌<◌, ◌≤◌, ◌≡◌, refl, ap, ◌∙◌, true, false, List, [], ◌∷◌, ◌++◌, append-nil,
  arith, ltb, length, drop, drop-add,
}
use client_shared_lib.Xml.{absent, value_at, starts_with, scan}

pub starts_with-append : (key text : List ℕ) → starts_with key (key ++ text) ≡ true
unfolding starts_with
starts_with-append [] text = refl
starts_with-append (c ∷ key) text = ground (arith, starts_with-append key text)

module _ (start_key end_key : List ℕ) where
  -- neither tag begins in `xs`, when `rest` follows
  abbrev pub Clear : List ℕ → List ℕ → Type 0
  Clear [] rest = Unit
  Clear (x ∷ xs) rest =
      (starts_with start_key (x ∷ (xs ++ rest)) ≡ false)
      × (starts_with end_key (x ∷ (xs ++ rest)) ≡ false)
      × Clear xs rest

  module _ (input : List ℕ) (in_len : ℕ) where
    drop-next : (i : ℕ) {x : ℕ} {xs : List ℕ} → drop i input ≡ x ∷ xs → drop (i + 1) input ≡ xs
    drop-next i e = drop-add i 1 input ∙ ap (drop 1) e

    -- one round of the loop, by what begins at `&in[i]`
    pub round-other :
        (k : ℕ) (text : List ℕ) (i j : ℕ)
        → i < in_len
        → drop i input ≡ text
        → starts_with start_key text ≡ false
        → starts_with end_key text ≡ false
        → scan (suc k) input in_len start_key end_key i j
          ≡ scan k input in_len start_key end_key (i + 1) j
    unfolding scan
    round-other k text i j inside at s e =
        let t : ltb i in_len ≡ true = ground arith in rw (t, at, s, e)

    pub round-start :
        (k : ℕ) (text : List ℕ) (i j : ℕ)
        → i < in_len
        → drop i input ≡ text
        → starts_with start_key text ≡ true
        → scan (suc k) input in_len start_key end_key i j
          ≡ scan k input in_len start_key end_key (i + length start_key + 1) (i + length start_key)
    unfolding scan
    round-start k text i j inside at s = let t : ltb i in_len ≡ true = ground arith in rw (t, at, s)

    pub round-end :
        (k : ℕ) (text : List ℕ) (i j : ℕ)
        → i < in_len
        → drop i input ≡ text
        → starts_with start_key text ≡ false
        → starts_with end_key text ≡ true
        → scan (suc k) input in_len start_key end_key i j ≡ value_at i j
    unfolding scan
    round-end k text i j inside at s e =
        let t : ltb i in_len ≡ true = ground arith in rw (t, at, s, e)

    -- The loop passes over text in which no tag begins.
    pub scan-Clear :
        (k : ℕ) (xs rest : List ℕ) (i j : ℕ)
        → drop i input ≡ xs ++ rest
        → Clear xs rest
        → i + length xs ≤ in_len
        → scan (length xs + k) input in_len start_key end_key i j
          ≡ scan k input in_len start_key end_key (i + length xs) j
    scan-Clear k [] rest i j at clear inside =
        let zero_left : 0 + k ≡ k = omega arith in
        let same : i + 0 ≡ i = omega arith in rw (zero_left, same)
    scan-Clear k (x ∷ xs) rest i j at (s, e, clear) inside =
        let left : suc (length xs) + k ≡ suc (length xs + k) = omega arith in
        let same : i + suc (length xs) ≡ i + 1 + length xs = omega arith in
        rw (left, same)
          (round-other (length xs + k) (x ∷ xs ++ rest) i j (omega arith) at s e
            ∙ scan-Clear k xs rest (i + 1) j (drop-next i at) clear (omega arith))

    -- Without a further tag the loop runs to the end.
    pub scan-absent :
        (k : ℕ) (xs : List ℕ) (i j : ℕ)
        → drop i input ≡ xs
        → Clear xs []
        → i + length xs ≡ in_len
        → scan k input in_len start_key end_key i j ≡ absent
    unfolding scan
    scan-absent zero xs i j at clear inside = refl
    scan-absent (suc k) [] i j at clear inside = let t : ltb i in_len ≡ false = ground arith in rw t
    scan-absent (suc k) (x ∷ xs) i j at (s, e, clear) inside =
        let t : ltb i in_len ≡ true = ground arith in
        rw (t, at, rw (append-nil xs) at s, rw (append-nil xs) at e)
          (scan-absent k xs (i + 1) j (drop-next i at) clear (omega arith))
