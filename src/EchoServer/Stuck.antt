-- ===== src/EchoServer/Stuck.antt =====
-- Once it has a connection, the test server does not end.
use client_shared_lib.Base.{
  ℕ, ◌≡◌, refl, Bool, true, false, List, [], ◌∷◌, ◌++◌, append-nil, append_assoc, not, ◌&&◌, arith,
  ◌==◌, Bool-cases, inl, inr, if◌then◌else◌,
}
use client_shared_lib.Base.Int.{pos, negsuc, ◌==ℤ◌}
use client_shared_lib.Mem.{Run, ok, fault, out_of_fuel}
use client_shared_lib.Connect.{is_negative}
use client_shared_lib.EchoServer.{
  max_size, repeated, filled, next_char, has_nul, Echo, print, is_exit, func, Answers, Server,
  ServerCall, binds, listens, accepts, main,
}

-- The bytes leave a NUL in the buffer, and begin with 255: the answer to them is empty.
abbrev pub is_harmless : List ℕ → Bool
is_harmless bytes = has_nul (filled bytes) && (next_char (filled bytes) == 0)

abbrev pub all_harmless : List (List ℕ) → Bool
all_harmless [] = true
all_harmless (bytes ∷ reads) = is_harmless bytes && all_harmless reads

abbrev pub stuck : {S A : Type 0} → Bool → Run S A
stuck true = out_of_fuel
stuck false = fault

has_nul-repeated : (c : ℕ) → has_nul (repeated max_size c) ≡ (c == 0)
has_nul-repeated c = elim (Bool-cases (c == 0)) [ inl e ↦ rw e refl | inr e ↦ rw e refl ]

not-is_exit : (c : ℕ) → is_exit (repeated max_size c) ≡ false
not-is_exit c = ground arith

func-stuck : (reads : List (List ℕ)) (s : Echo) → func reads s ≡ stuck (all_harmless reads)
unfolding func print
func-stuck [] s = refl
func-stuck (bytes ∷ reads) s =
    let n = next_char (filled bytes) in
    elim (Bool-cases (has_nul (filled bytes))) [
      | inl whole ↦ elim (Bool-cases (n == 0)) [
        | inl empty ↦
            rw (whole, has_nul-repeated n, empty, not-is_exit n)
              (func-stuck reads (record {
                printed = (s.printed ++ filled bytes ∷ []) ++ repeated max_size n ∷ [];
                written = s.written ++ repeated max_size n ∷ [];
              }))
        | inr other ↦ rw (whole, has_nul-repeated n, other) refl
      ]
      | inr none_there ↦ rw none_there refl
    ]

abbrev pub is_serving : Answers → Bool
is_serving a =
    not (a.sock ==ℤ negsuc 0)
    && ((a.bound ==ℤ pos 0) && ((a.listening ==ℤ pos 0) && not (is_negative a.conn)))

-- the calls up to the first that fails
abbrev pub attempted : Answers → List ServerCall
attempted a =
    if a.sock ==ℤ negsuc 0
    then []
    else (if a.bound ==ℤ pos 0
        then (if a.listening ==ℤ pos 0
            then binds a.sock ∷ listens a.sock ∷ accepts a.sock ∷ []
            else binds a.sock ∷ listens a.sock ∷ [])
        else binds a.sock ∷ [])

append-snoc : {A : Type 0} (xs : List A) (a b : A) → (xs ++ a ∷ []) ++ b ∷ [] ≡ xs ++ a ∷ b ∷ []
append-snoc xs a b = append_assoc xs (a ∷ []) (b ∷ [])

-- If one of its calls fails, the test server ends with status 0 and has made the calls up to that
-- one. Otherwise it does not end: it goes on reading as long as each read leaves a NUL in the
-- buffer and begins with the byte 255, and at the first other read, a failed or empty one too, it
-- prints past the end of its buffer.
pub main-stuck :
    (a : Answers) (reads : List (List ℕ)) (s : Server)
    → main a reads s ≡ (
        if is_serving a
        then stuck (all_harmless reads)
        else ok 0 (record s { calls = s.calls ++ attempted a }))
unfolding main
main-stuck a reads s = elim (Bool-cases (a.sock ==ℤ negsuc 0)) [
  | inl none_made ↦ rw (none_made, append-nil (s.calls)) refl
  | inr made ↦ elim (Bool-cases (a.bound ==ℤ pos 0)) [
    | inl bound ↦ elim (Bool-cases (a.listening ==ℤ pos 0)) [
      | inl listening ↦ elim (Bool-cases (is_negative a.conn)) [
        | inl refused ↦
            rw
              (
                made,
                bound,
                listening,
                refused,
                append-snoc (s.calls) (binds a.sock) (listens a.sock),
                append_assoc (s.calls) (binds a.sock ∷ listens a.sock ∷ []) (accepts a.sock ∷ []),
              )
              refl
        | inr taken ↦ elim (Bool-cases (all_harmless reads)) [
          | inl quiet ↦ rw (made, bound, listening, taken, func-stuck reads (s.echo), quiet) refl
          | inr loud ↦ rw (made, bound, listening, taken, func-stuck reads (s.echo), loud) refl
        ]
      ]
      | inr deaf ↦
          rw (made, bound, deaf, append-snoc (s.calls) (binds a.sock) (listens a.sock)) refl
    ]
    | inr unbound ↦ rw (made, unbound) refl
  ]
]
