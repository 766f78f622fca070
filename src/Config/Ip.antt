-- ===== src/Config/Ip.antt =====
-- What `chkIP` accepts: four numbers up to 255, with dots between them, and any dots besides.
use client_shared_lib.Base.{
  ℕ, zero, suc, ◌+◌, ◌<◌, ◌≤◌, ◌≡◌, refl, ◌∙◌, Bool, true, ◌&&◌, Option, none, some, List, [], ◌∷◌,
  arith, ◌==◌, length, Bool-cases, inl, inr, if◌then◌else◌,
}
use client_shared_lib.Types.{CString, is_empty}
use client_shared_lib.Wire.{atoi}
use client_shared_lib.Config.{
  validate_number, token, behind, strtok_r, is_octet, ip_loop, ip_from, chk_ip,
}

abbrev prepend : ℕ → List CString → List CString
prepend c [] = (c ∷ []) ∷ []
prepend c (f ∷ fs) = (c ∷ f) ∷ fs

-- the fields between the dots
unfoldable pub fields : CString → List CString
fields [] = [] ∷ []
fields (c ∷ s) = if c == b'.' then [] ∷ fields s else prepend c (fields s)

unfoldable pub nonempty : List CString → List CString
nonempty [] = []
nonempty (f ∷ fs) = if is_empty f then nonempty fs else f ∷ nonempty fs

abbrev pub is_number : CString → Bool
is_number f = validate_number f && is_octet (atoi f)

abbrev pub all_numbers : List CString → Bool
all_numbers [] = true
all_numbers (f ∷ fs) = is_number f && all_numbers fs

fields-token :
    (s : CString)
    → (fs : List CString) × (fields s ≡ token b'.' s ∷ fs)
      × (nonempty fs ≡ nonempty (fields (behind b'.' s)))
unfolding fields token behind nonempty
fields-token [] = ([], refl, refl)
fields-token (c ∷ s) = elim (Bool-cases (c == b'.')) [
  | inl dot ↦ rw dot (fields s, refl, refl)
  | inr other ↦ rw other (let (fs, split, same) = fields-token s in (fs, rw split, same))
]

behind-shorter : (s : CString) → length (behind b'.' s) ≤ length s
unfolding behind
behind-shorter [] = omega arith
behind-shorter (c ∷ s) = ground (arith, behind-shorter s)

-- the tokens that the loop goes through
data Tokens : CString → Option (CString × CString) → Type 0 where
  no_token : {s : CString} → nonempty (fields s) ≡ [] → Tokens s none
  one_token :
      {s t r : CString}
      → nonempty (fields s) ≡ t ∷ nonempty (fields r)
      → length r < length s
      → Tokens s (some (t, r))

skip-Tokens :
    {c : ℕ} {s : CString} {o : Option (CString × CString)}
    → nonempty (fields (c ∷ s)) ≡ nonempty (fields s)
    → Tokens s o
    → Tokens (c ∷ s) o
skip-Tokens same (no_token e) = no_token (same ∙ e)
skip-Tokens same (one_token e shorter) = one_token (same ∙ e) (omega arith)

strtok_r-Tokens : (s : CString) → Tokens s (strtok_r b'.' s)
unfolding strtok_r fields nonempty token behind
strtok_r-Tokens [] = no_token refl
strtok_r-Tokens (c ∷ s) = elim (Bool-cases (c == b'.')) [
  | inl dot ↦ rw dot (skip-Tokens (rw dot) (strtok_r-Tokens s))
  | inr other ↦
      let (fs, split, same) = fields-token s in
      rw other (one_token (rw (other, split, same)) (let n = behind-shorter s in omega arith))
]

-- what the loop is to say, with `dots` dots before the tokens `ts`
abbrev verdict : List CString → ℕ → Bool
verdict ts dots = all_numbers ts && ((dots + length ts) == 3)

-- the end of a round, if the next one is right
onward :
    (k dots : ℕ) (r : CString) (o : Option (CString × CString))
    → Tokens r o
    → length r < k
    → ((t r' : CString) (d : ℕ)
        → length r' + 1 < k
        → ip_loop k (some (t, r')) d ≡ (is_number t && verdict (nonempty (fields r')) d))
    → elim o [ none ↦ ip_loop k none dots | some next ↦ ip_loop k (some next) (dots + 1) ]
      ≡ verdict (nonempty (fields r)) dots
unfolding ip_loop
onward zero dots r o at fuel next = absurd (omega arith)
onward (suc k) dots r none (no_token e) fuel next =
    let z : dots + 0 ≡ dots = omega arith in rw (e, z)
onward (suc k) dots r (some (t, r')) (one_token e shorter) fuel next =
    let n : dots + 1 + length (nonempty (fields r')) ≡ dots + suc (length (nonempty (fields r'))) =
      omega arith in
    rw e (next t r' (dots + 1) (omega arith) ∙ rw n (ground arith))

-- The loop that starts at the token `t`, whose rest is `r`.
ip_loop-fields :
    (k : ℕ) (t r : CString) (dots : ℕ)
    → length r + 1 < k
    → ip_loop k (some (t, r)) dots ≡ (is_number t && verdict (nonempty (fields r)) dots)
unfolding ip_loop
ip_loop-fields zero t r dots fuel = absurd (omega arith)
ip_loop-fields (suc k) t r dots fuel =
    let rest =
      onward k dots r (strtok_r b'.' r) (strtok_r-Tokens r) (omega arith)
        (λ t' r' d f. ip_loop-fields k t' r' d f) in
    elim (Bool-cases (validate_number t)) [
      | inr bad ↦ rw bad
      | inl good ↦ elim (Bool-cases (is_octet (atoi t))) [
        | inr bad ↦ rw (good, bad)
        | inl good' ↦ rw (good, good') rest
      ]
    ]

ip_from-fields :
    (k : ℕ) (s : CString) (o : Option (CString × CString))
    → Tokens s o
    → length s + 1 < k
    → ip_from k o ≡ (all_numbers (nonempty (fields s)) && (length (nonempty (fields s)) == 4))
ip_from-fields k s none (no_token e) fuel = rw e
ip_from-fields k s (some (t, r)) (one_token e shorter) fuel =
    rw e (ip_loop-fields k t r 0 (omega arith) ∙ ground arith)

-- chkIP accepts a string exactly if, of the fields between its dots, those that are not empty are
-- four, and each of them consists of digits and is from 0 to 255 as atoi reads it: as a long that
-- stops at its bounds, of which the lower 32 bits make an int.
pub chk_ip-fields :
    (ip : CString)
    → chk_ip (some ip)
      ≡ (all_numbers (nonempty (fields ip)) && (length (nonempty (fields ip)) == 4))
unfolding chk_ip
chk_ip-fields ip =
    ip_from-fields (length ip + 2) ip (strtok_r b'.' ip) (strtok_r-Tokens ip) (omega arith)
