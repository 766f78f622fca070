-- ===== src/Connect/Repair.antt =====
-- Connections that are restored, and one that never is.
use client_shared_lib.Base.{
  ℕ, ◌≡◌, ◌≢◌, refl, ◌∙◌, true, false, some, List, [], ◌∷◌, ◌++◌, arith, ◌==◌, set, get_elem?,
  set-same, set-other, set-twice, Bool-cases, inl, inr, if◌then◌else◌,
}
use client_shared_lib.Mem.{ok, out_of_fuel}
use client_shared_lib.Mem.Returns
use client_shared_lib.Mem.Returns.{Returns, returns}
use client_shared_lib.Types.{Con}
use client_shared_lib.Peers.RoundRobin.{IsUp}
use client_shared_lib.Connect.{
  EndPeer, connects, Net, is_negative, fits_sndbuf, blank_con, Dial, dial, recreate_conn, reconnect,
  conn_at,
}

-- connection `i` after an attempt
abbrev pub redialed : Con → Dial → Con
redialed c d = record c { state = (if is_negative d.rc then 0 else 1); fd = d.sock }

pub dial-ok :
    (i : ℕ) (c : Con) (d : Dial) (s : Net)
    → dial i c d s
      ≡ ok tt (record {
        conns = set (s.conns) i (redialed c d);
        calls = s.calls ++ connects d.sock ∷ [];
      })
dial-ok i c d s = elim (Bool-cases (is_negative d.rc)) [
  | inl bad ↦ rw bad
  | inr good ↦ rw (good, set-twice (s.conns) i)
]

pub conn_at-ok : (i : ℕ) (s : Net) {c : Con} → get_elem? s.conns i ≡ some c → conn_at i s ≡ ok c s
unfolding conn_at
conn_at-ok i s at_c = rw (conn_at, at_c)

pub recreate_conn-ok :
    (pid : ℕ) (peers : List EndPeer) (d : Dial) (s : Net) {p : EndPeer} {c : Con}
    → get_elem? peers pid ≡ some p
    → fits_sndbuf p.port ≡ true
    → get_elem? s.conns pid ≡ some c
    → recreate_conn pid peers d s
      ≡ ok tt (record {
        conns = set (s.conns) pid (redialed c d);
        calls = s.calls ++ connects d.sock ∷ [];
      })
unfolding recreate_conn
recreate_conn-ok pid peers d s {c} at_p fits at_c =
    rw (at_p, conn_at-ok pid s at_c, fits) (dial-ok pid c d s)

-- If a peer other than the first has the zeroed entry that create_peers leaves after a failure,
-- and the first peer has an entry and a port of at most four digits, then the loop that waits for
-- that peer's connection does not end, whatever the attempts bring: they all go to the first
-- peer.
pub reconnect-spins :
    (i : ℕ) (peers : List EndPeer) (dials : List Dial) (s : Net) {p : EndPeer} {c : Con}
    → get_elem? peers 0 ≡ some p
    → fits_sndbuf p.port ≡ true
    → i ≢ 0
    → get_elem? s.conns i ≡ some blank_con
    → get_elem? s.conns 0 ≡ some c
    → reconnect i peers dials s ≡ out_of_fuel
unfolding reconnect
reconnect-spins i peers [] s at_p fits ne at_i at_0 = rw (conn_at-ok i s at_i)
reconnect-spins i peers (d ∷ dials) s {c} at_p fits ne at_i at_0 =
    rw (conn_at-ok i s at_i, recreate_conn-ok 0 peers d s at_p fits at_0)
      (reconnect-spins i peers dials _ at_p fits ne
        (set-other (s.conns) 0 i (redialed c d) ne ∙ at_i)
        (set-same (s.conns) 0 (redialed c d) at_0))

-- Attempts that fail, and then one that succeeds.
pub data Succeeds : List Dial → Type 0 where
  now : {d : Dial} {dials : List Dial} → is_negative d.rc ≡ false → Succeeds (d ∷ dials)
  later :
      {d : Dial} {dials : List Dial}
      → is_negative d.rc ≡ true
      → Succeeds dials
      → Succeeds (d ∷ dials)

pub reconnect-up :
    (i : ℕ) (peers : List EndPeer) (dials : List Dial) (s : Net)
    → IsUp s.conns i
    → reconnect i peers dials s ≡ ok tt s
unfolding reconnect
reconnect-up i peers [] s (c, at_c, live) = rw (conn_at-ok i s at_c, live)
reconnect-up i peers (d ∷ dials) s (c, at_c, live) = rw (conn_at-ok i s at_c, live)

-- If the entry of a connection holds its own number and its port has at most four digits, the
-- loop that waits for it ends at the latest with the first attempt that succeeds: the connection
-- is up, and the entries of the others stay.
pub reconnect-IsUp :
    (i : ℕ) (peers : List EndPeer) (dials : List Dial) (s : Net) {p : EndPeer} {c : Con}
    → get_elem? peers i ≡ some p
    → fits_sndbuf p.port ≡ true
    → get_elem? s.conns i ≡ some c
    → c.peer_id ≡ i
    → Succeeds dials
    → Returns
        (λ _ t. IsUp t.conns i × ((j : ℕ) → j ≢ i → get_elem? t.conns j ≡ get_elem? s.conns j))
        (reconnect i peers dials s)
unfolding reconnect
reconnect-IsUp i peers [] s at_p fits at_c own ends = elim ends [ ]
reconnect-IsUp i peers (d ∷ dials) s {c} at_p fits at_c own (now good) =
    elim (Bool-cases (c.state == 1)) [
      | inl live ↦ rw (conn_at-ok i s at_c, live) (returns ((c, at_c, ground arith), λ j ne. refl))
      | inr down ↦
          rw
            (
              conn_at-ok i s at_c,
              down,
              own,
              recreate_conn-ok i peers d s at_p fits at_c,
              reconnect-up i peers dials
                  (record {
                    conns = set (s.conns) i (redialed c d);
                    calls = s.calls ++ connects d.sock ∷ [];
                  })
                  (redialed c d, set-same (s.conns) i _ at_c, rw good),
            )
            (returns (
              (redialed c d, set-same (s.conns) i _ at_c, rw good),
              λ j ne. set-other (s.conns) i j _ ne,
            ))
    ]
reconnect-IsUp i peers (d ∷ dials) s {c} at_p fits at_c own (later bad ends) =
    elim (Bool-cases (c.state == 1)) [
      | inl live ↦ rw (conn_at-ok i s at_c, live) (returns ((c, at_c, ground arith), λ j ne. refl))
      | inr down ↦
          rw (conn_at-ok i s at_c, down, own, recreate_conn-ok i peers d s at_p fits at_c)
            (Returns.mono
              (reconnect-IsUp i peers dials
                (record {
                  conns = set (s.conns) i (redialed c d);
                  calls = s.calls ++ connects d.sock ∷ [];
                })
                at_p fits (set-same (s.conns) i (redialed c d) at_c) own ends)
              λ _ t (live, same). (live, λ j ne. same j ne ∙ set-other (s.conns) i j _ ne))
    ]
