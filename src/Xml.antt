-- ===== src/Xml.antt =====
-- `parse_xml_attribute` of mod_tcpclient/src/task.c: the text between two tags of a message. The
-- message is its bytes; the NUL that ends it stands behind them, and no tag holds a NUL.
pub mod Element
pub mod Bounds
pub mod RoundTrip
use client_shared_lib.Base.{
  ℕ, zero, suc, ◌+◌, ◌-◌, Bool, true, false, ◌&&◌, Option, none, some, List, [], ◌∷◌, ◌==◌, ltb,
  length, drop, if◌then◌else◌,
}

-- The result and `*out`: `s` is the offset of `out->s` in the message.
pub record Parsed : Type 0 where
  pub ret : Bool
  pub s : Option ℕ
  pub len : ℕ

abbrev pub absent : Parsed
absent = record { ret = false; s = none; len = 0 }

abbrev pub value_at : ℕ → ℕ → Parsed
value_at i j = record { ret = true; s = some j; len = i - j }

-- `strncmp(text, key, strlen(key)) == 0`
unfoldable pub starts_with : List ℕ → List ℕ → Bool
starts_with [] text = true
starts_with (c ∷ key) [] = false
starts_with (c ∷ key) (d ∷ text) = (c == d) && starts_with key text

-- The `for` loop; the first argument counts the rounds that are left. A start tag moves `i` to its
-- end, and the increment of the loop then moves `i` on by one more.
unfoldable pub scan : ℕ → List ℕ → ℕ → (start_key end_key : List ℕ) → (i j : ℕ) → Parsed
scan zero input in_len start_key end_key i j = absent
scan (suc k) input in_len start_key end_key i j =
    let at_start =
      scan k input in_len start_key end_key (i + length start_key + 1) (i + length start_key) in
    let onward = scan k input in_len start_key end_key (i + 1) j in
    if ltb i in_len
    then (if starts_with start_key (drop i input)
        then at_start
        else (if starts_with end_key (drop i input) then value_at i j else onward))
    else absent

-- `in && *in`: the first byte is there, and is not NUL.
abbrev pub is_text : List ℕ → Bool
is_text [] = false
is_text (c ∷ input) = if c == 0 then false else true

-- `none` stands for NULL. Each round moves `i` on, so `in_len` rounds are enough.
unfoldable pub parse_xml_attribute : Option (List ℕ) → ℕ → (start_key end_key : List ℕ) → Parsed
unfolding scan
parse_xml_attribute none in_len start_key end_key = absent
parse_xml_attribute (some input) in_len start_key end_key =
    if is_text input then scan in_len input in_len start_key end_key 0 0 else absent
