-- ===== src/Connect/Monitor.antt =====
-- What a round of the monitor leaves in `gconn_list`.
use client_shared_lib.Base.{
  ℕ, suc, ◌≡◌, refl, ap, ◌∙◌, sym, true, some, List, [], ◌∷◌, ◌++◌, append_assoc, append-nil, arith,
  length, length-append, set, get_elem?, get_elem?-append, set-append, Bool-cases, inl, inr,
  if◌then◌else◌,
}
use client_shared_lib.Mem.{ok}
use client_shared_lib.Types.{Con}
use client_shared_lib.Connect.Repair.{redialed, conn_at-ok, dial-ok}
use client_shared_lib.Connect.{
  EndPeer, Call, connects, closes, Net, fits_sndbuf, Health, is_healthy, monitor_loop,
  monitor_sock_conn,
}

-- `gconn_list` after a round of the monitor
abbrev pub watched : ℕ → List Con → (ℕ → Health) → List Con
watched i [] health = []
watched i (c ∷ conns) health =
    (if is_healthy (health i) then c else redialed c (health i).again)
    ∷ watched (suc i) conns health

abbrev pub watch_calls : ℕ → List Con → (ℕ → Health) → List Call
watch_calls i [] health = []
watch_calls i (c ∷ conns) health =
    (if is_healthy (health i) then [] else closes c.fd ∷ connects (health i).again.sock ∷ [])
    ++ watch_calls (suc i) conns health

-- A connection for every peer, and ports of at most four digits.
pub data Served : List EndPeer → List Con → Type 0 where
  none_left : Served [] []
  served :
      {p : EndPeer} {c : Con} {peers : List EndPeer} {conns : List Con}
      → fits_sndbuf p.port ≡ true
      → Served peers conns
      → Served (p ∷ peers) (c ∷ conns)

monitor_loop-watched :
    (i : ℕ) (health : ℕ → Health) (done : List Con) (calls : List Call) {peers : List EndPeer}
    {conns : List Con}
    → length done ≡ i
    → Served peers conns
    → monitor_loop i peers health (record { conns = done ++ conns; calls = calls })
      ≡ ok tt (record {
        conns = done ++ watched i conns health;
        calls = calls ++ watch_calls i conns health;
      })
unfolding monitor_loop
monitor_loop-watched i health done calls size none_left = rw (append-nil calls)
monitor_loop-watched i health done calls size (served {c} {peers} {conns} fits more) =
    let onward : (c' : Con) (calls' : List Call)
        → monitor_loop (suc i) peers health (record { conns = done ++ c' ∷ conns; calls = calls' })
          ≡ ok tt (record {
            conns = done ++ c' ∷ watched (suc i) conns health;
            calls = calls' ++ watch_calls (suc i) conns health;
          }) =
      λ c' calls'.
        rw
          (
            append_assoc done (c' ∷ []) conns,
            append_assoc done (c' ∷ []) (watched (suc i) conns health),
          )
          at
          (monitor_loop-watched (suc i) health (done ++ c' ∷ []) calls'
            (omega (arith, length-append done (c' ∷ []))) more) in
    elim (Bool-cases (is_healthy (health i))) [
      | inl well ↦
          rw (conn_at-ok i (record { conns = done ++ c ∷ conns; calls = calls }) at_c, well)
            (onward c calls)
      | inr ill ↦
          rw
            (
              conn_at-ok i (record { conns = done ++ c ∷ conns; calls = calls }) at_c,
              ill,
              fits,
              dial-ok i c (health i).again,
              put,
              append_assoc calls (closes c.fd ∷ []),
            )
            (rw (append_assoc calls (closes c.fd ∷ connects (health i).again.sock ∷ [])) at (
              onward (redialed c (health i).again)
                (calls ++ closes c.fd ∷ connects (health i).again.sock ∷ [])))
    ]
  where
    at_c : get_elem? (done ++ c ∷ conns) i ≡ some c
    at_c = rw (sym size) (get_elem?-append done c conns)

    put :
        set (done ++ c ∷ conns) i (redialed c (health i).again)
        ≡ done ++ redialed c (health i).again ∷ conns
    put =
        ap (λ j. set (done ++ c ∷ conns) j (redialed c (health i).again)) (sym size)
        ∙ set-append done c (redialed c (health i).again) conns

-- With an entry for every peer and ports of at most four digits, a round of the monitor leaves
-- each healthy connection as it is, closes each other one and connects anew, marks it as up
-- exactly if that succeeds, and keeps its number.
pub monitor_sock_conn-watched :
    (health : ℕ → Health) (s : Net) {peers : List EndPeer}
    → Served peers s.conns
    → monitor_sock_conn peers health s
      ≡ ok tt (record {
        conns = watched 0 (s.conns) health;
        calls = s.calls ++ watch_calls 0 (s.conns) health;
      })
unfolding monitor_sock_conn
monitor_sock_conn-watched health s more = monitor_loop-watched 0 health [] (s.calls) refl more
