-- ===== src/Connect/Table.antt =====
-- What `create_peers` leaves in `gconn_list`.
use client_shared_lib.Base.{
  ℕ, suc, ◌≡◌, refl, sym, Bool, true, false, List, [], ◌∷◌, ◌++◌, append_assoc, append-nil, arith,
  length, length-append, set-append, Bool-cases, inl, inr, if◌then◌else◌,
}
use client_shared_lib.Mem.{ok}
use client_shared_lib.Types.{Con}
use client_shared_lib.Connect.{
  EndPeer, Call, connects, closes, is_negative, fits_sndbuf, blank_con, blanks, Attempt,
  create_peer, create_loop, create_peers,
}

-- the second attempt counts as well
abbrev pub succeeds : Attempt → Bool
succeeds a = if is_negative a.first then (if is_negative a.second then false else true) else true

abbrev pub con_of : ℕ → Attempt → Con
con_of i a = if succeeds a then record { fd = a.sock; state = 1; peer_id = i } else blank_con

-- the peers from `i` on
abbrev pub table : ℕ → List EndPeer → (ℕ → Attempt) → List Con
table i [] attempt = []
table i (p ∷ peers) attempt = con_of i (attempt i) ∷ table (suc i) peers attempt

abbrev pub calls_of : Attempt → List Call
calls_of a =
    if is_negative a.first
    then connects a.sock ∷ closes a.sock ∷ connects a.sock ∷ []
    else connects a.sock ∷ []

abbrev pub trace : ℕ → List EndPeer → (ℕ → Attempt) → List Call
trace i [] attempt = []
trace i (p ∷ peers) attempt = calls_of (attempt i) ++ trace (suc i) peers attempt

-- every port has at most four digits
abbrev pub AllFit : List EndPeer → Type 0
AllFit [] = Unit {0}
AllFit (p ∷ peers) = (fits_sndbuf p.port ≡ true) × AllFit peers

create_peer-con :
    (i : ℕ) (p : EndPeer) (a : Attempt) (done rest : List Con) (calls : List Call)
    → length done ≡ i
    → fits_sndbuf p.port ≡ true
    → is_negative a.sock ≡ false
    → create_peer i p a (record { conns = done ++ blank_con ∷ rest; calls = calls })
      ≡ ok true (record { conns = done ++ con_of i a ∷ rest; calls = calls ++ calls_of a })
unfolding create_peer
create_peer-con i p a done rest calls size fits opened = elim (Bool-cases (is_negative a.first)) [
  | inr good ↦ rw (fits, opened, good, sym size, set-append done blank_con)
  | inl bad ↦ elim (Bool-cases (is_negative a.second)) [
    | inr good ↦ rw (
      fits,
      opened,
      bad,
      good,
      sym size,
      set-append done blank_con,
      append_assoc calls,
      append_assoc calls,
    )
    | inl bad' ↦ rw (fits, opened, bad, bad', append_assoc calls, append_assoc calls)
  ]
]

create_loop-table :
    (i : ℕ) (peers : List EndPeer) (attempt : ℕ → Attempt) (done : List Con) (calls : List Call)
    → length done ≡ i
    → AllFit peers
    → ((j : ℕ) → is_negative (attempt j).sock ≡ false)
    → create_loop i peers attempt (record { conns = done ++ blanks peers; calls = calls })
      ≡ ok true
          (record { conns = done ++ table i peers attempt; calls = calls ++ trace i peers attempt })
unfolding create_loop
create_loop-table i [] attempt done calls size fit opened = rw (append-nil done, append-nil calls)
create_loop-table i (p ∷ peers) attempt done calls size (fits, fit) opened =
    rw (create_peer-con i p (attempt i) done (blanks peers) calls size fits (opened i)) (
      rw
        (
          append_assoc done _ (blanks peers),
          append_assoc done _ (table (suc i) peers attempt),
          append_assoc calls _ _,
        )
        at
        (create_loop-table (suc i) peers attempt (done ++ con_of i (attempt i) ∷ [])
          (calls ++ calls_of (attempt i))
          (omega (arith, length-append done (con_of i (attempt i) ∷ []))) fit opened))

-- If every port has at most four digits and every socket is created, create_peers goes through
-- all peers and leaves a table in which peer i is up, with its socket and its number, if one of
-- its two attempts succeeds, and is a zeroed entry otherwise; the calls are one connect for each
-- peer, and after a failure a close and a second connect on the descriptor just closed.
pub create_peers-table :
    (peers : List EndPeer) (attempt : ℕ → Attempt) (calls : List Call)
    → AllFit peers
    → ((j : ℕ) → is_negative (attempt j).sock ≡ false)
    → create_peers peers attempt calls
      ≡ ok true (record { conns = table 0 peers attempt; calls = calls ++ trace 0 peers attempt })
unfolding create_peers
create_peers-table peers attempt calls fit opened =
    create_loop-table 0 peers attempt [] calls refl fit opened
