-- ===== src/Wire/Send.antt =====
-- `send_to_fd` puts the whole buffer on the wire, or reports that it did not.

use client_shared_lib.Base.{
  ℕ, zero, suc, ◌+◌, ◌-◌, ◌<◌, ◌≤◌, ◌≡◌, refl, ◌⊎◌, inl, inr, ap, ◌∙◌, sym, append-nil,
  append_assoc, true, false, Bool, ◌||◌, List, [], ◌∷◌, ◌++◌, arith, ◌==◌, ltb, take, drop, length,
  Bool-cases,
}
use client_shared_lib.Base.Int.{ℤ, pos, negsuc}
use client_shared_lib.Mem.Returns.{Returns, returns}
use client_shared_lib.Wire.{SendAnswer, sent, would_block, failed, Outbound, send_loop, send_to_fd}

-- The answers let `n` more bytes through, or break the call off: then it returns.
unfoldable pub settles : List SendAnswer → ℕ → Bool
settles [] n = n == 0
settles (sent m ∷ answers) n = (n == 0) || ((m == 0) || settles answers (n - m))
settles (would_block ∷ answers) n = (n == 0) || settles answers n
settles (failed ∷ answers) n = true

-- What `send_to_fd` has done when it returns `r`: the first `t` bytes are on the wire, all of the
-- message exactly if `r` is not -1.
abbrev pub Outcome : (buf : List ℕ) → (len : ℕ) → (wire : List ℕ) → ℤ → Outbound → Type 0
Outcome buf len wire r s =
    (t : ℕ) × (s.wire ≡ wire ++ take t buf)
    × (((r ≡ pos t) × (len ≤ t)) ⊎ ((r ≡ negsuc 0) × (t < len)))

take-nil : (n : ℕ) → take {A = ℕ} n [] ≡ []
take-nil zero = refl
take-nil (suc n) = refl

pub take-add : (i n : ℕ) (xs : List ℕ) → take (i + n) xs ≡ take i xs ++ take n (drop i xs)
take-add zero n xs = let e : 0 + n ≡ n = omega arith in rw e
take-add (suc i) n [] = let e : suc i + n ≡ suc (i + n) = omega arith in rw (e, take-nil n)
take-add (suc i) n (x ∷ xs) =
    let e : suc i + n ≡ suc (i + n) = omega arith in rw (e, take-add i n xs)

module _ (buf : List ℕ) (len : ℕ) (base : List ℕ) (fits : ltb (length buf) len ≡ false) where
  send_loop-Outcome :
      (answers : List SendAnswer) (total : ℕ)
      → settles answers (len - total) ≡ true
      → Returns (Outcome buf len base) (send_loop answers buf len total (base ++ take total buf))
  unfolding send_loop settles
  send_loop-Outcome [] total enough =
      let t : ltb total len ≡ false = ground arith in
      rw t (returns (total, refl, inl (refl, ground arith)))
  send_loop-Outcome (sent n ∷ answers) total enough = elim (Bool-cases (ltb total len)) [
    | inr done ↦ rw done (returns (total, refl, inl (refl, ground arith)))
    | inl more ↦ elim (Bool-cases (n == 0)) [
      | inl none' ↦ rw (more, fits, none') (returns (total, refl, inr (refl, ground arith)))
      | inr some' ↦
          let left : ((len - total) == 0) ≡ false = ground arith in
          let same : len - total - n ≡ len - (total + n) = omega arith in
          let e : base ++ take total buf ++ take n (drop total buf) ≡ base ++ take (total + n) buf =
            append_assoc base (take total buf) (take n (drop total buf))
            ∙ ap (λ xs. base ++ xs) (sym (take-add total n buf)) in
          rw (more, fits, some', e)
            (send_loop-Outcome answers (total + n) (rw (left, some', same) at enough))
    ]
  ]
  send_loop-Outcome (would_block ∷ answers) total enough = elim (Bool-cases (ltb total len)) [
    | inr done ↦ rw done (returns (total, refl, inl (refl, ground arith)))
    | inl more ↦
        let left : ((len - total) == 0) ≡ false = ground arith in
        rw (more, fits) (send_loop-Outcome answers total (rw left at enough))
  ]
  send_loop-Outcome (failed ∷ answers) total enough = elim (Bool-cases (ltb total len)) [
    | inr done ↦ rw done (returns (total, refl, inl (refl, ground arith)))
    | inl more ↦ rw (more, fits) (returns (total, refl, inr (refl, ground arith)))
  ]

-- For a length of at most that of the buffer, as soon as the kernel takes enough bytes or the
-- call is broken off, send_to_fd returns: it returns the number of bytes that the kernel took,
-- which is no less than the length, or -1 with fewer on the wire; what is on the wire is a prefix
-- of the buffer.
pub send_to_fd-Outcome :
    (buf : List ℕ) (len : ℕ) (s : Outbound)
    → len ≤ length buf
    → settles (s.answers) len ≡ true
    → Returns (Outcome buf len (s.wire)) (send_to_fd buf len s)
unfolding send_to_fd
send_to_fd-Outcome buf len s fits enough =
    let whole : len - 0 ≡ len = omega arith in
    rw (append-nil (s.wire)) at
      (send_loop-Outcome buf len (s.wire) (ground arith) (s.answers) 0 (rw whole enough))
