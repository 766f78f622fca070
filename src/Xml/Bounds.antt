-- ===== src/Xml/Bounds.antt =====
-- What `parse_xml_attribute` hands out lies in the message.
use client_shared_lib.Base.{
  ℕ, zero, suc, ◌+◌, ◌<◌, ◌≤◌, ◌≡◌, refl, ◌⊎◌, inl, inr, true, false, some, List, arith, ltb,
  length, drop, Bool-cases,
}
use client_shared_lib.Xml.{
  Parsed, absent, value_at, starts_with, scan, is_text, parse_xml_attribute,
}

module _ (input : List ℕ) (in_len : ℕ) (start_key end_key : List ℕ) where
  -- the value begins behind a start tag, or at the beginning of the message
  abbrev pub Anchored : ℕ → Type 0
  Anchored j =
      (j ≡ 0)
      ⊎ ((p : ℕ) × (j ≡ p + length start_key) × (starts_with start_key (drop p input) ≡ true))

  -- the value ends at an end tag, inside the message
  abbrev pub Located : Parsed → Type 0
  Located r =
      (r ≡ absent)
      ⊎ ((i j : ℕ) × (r ≡ value_at i j)
          × (j ≤ i)
          × (i < in_len)
          × (starts_with end_key (drop i input) ≡ true)
          × Anchored j)

  scan-Located :
      (k i j : ℕ) → j ≤ i → Anchored j → Located (scan k input in_len start_key end_key i j)
  unfolding scan
  scan-Located zero i j le from = inl refl
  scan-Located (suc k) i j le from = elim (Bool-cases (ltb i in_len)) [
    | inr out ↦ rw out (inl refl)
    | inl inside ↦ elim (Bool-cases (starts_with start_key (drop i input))) [
      | inl s ↦
          rw (inside, s)
            (scan-Located k (i + length start_key + 1) (i + length start_key) (omega arith)
              (inr (i, refl, s)))
      | inr s ↦ elim (Bool-cases (starts_with end_key (drop i input))) [
        | inl e ↦ rw (inside, s, e) (inr (i, j, refl, le, ground arith, e, from))
        | inr e ↦ rw (inside, s, e) (scan-Located k (i + 1) j (omega arith) from)
      ]
    ]
  ]

-- A value that is found lies within the announced length of the message: it ends in front of an
-- end tag, and begins behind a start tag or at the first byte of the message.
pub parse_xml_attribute-Located :
    (input : List ℕ) (in_len : ℕ) (start_key end_key : List ℕ)
    → Located input in_len start_key end_key
        (parse_xml_attribute (some input) in_len start_key end_key)
unfolding parse_xml_attribute
parse_xml_attribute-Located input in_len start_key end_key = elim (Bool-cases (is_text input)) [
  | inl text ↦
      rw text (scan-Located input in_len start_key end_key in_len 0 0 (omega arith) (inl refl))
  | inr empty ↦ rw empty (inl refl)
]

-- From place i the scan ends within in_len - i rounds: more fuel than that changes nothing.
pub scan-enough :
    (input : List ℕ) (in_len : ℕ) (start_key end_key : List ℕ) (k n i j : ℕ)
    → in_len ≤ i + k
    → scan (k + n) input in_len start_key end_key i j ≡ scan k input in_len start_key end_key i j
unfolding scan
scan-enough input in_len start_key end_key zero n i j le = over n
  where
    over : (n : ℕ) → scan (0 + n) input in_len start_key end_key i j ≡ absent
    over zero = refl
    over (suc n) =
        let e : 0 + suc n ≡ suc n = omega arith in
        let out : ltb i in_len ≡ false = ground arith in rw (e, out)
scan-enough input in_len start_key end_key (suc k) n i j le =
    let e : suc k + n ≡ suc (k + n) = omega arith in
    let skip =
      scan-enough input in_len start_key end_key k n (i + length start_key + 1)
        (i + length start_key) (omega arith) in
    rw (e, skip, scan-enough input in_len start_key end_key k n (i + 1) j (omega arith))
