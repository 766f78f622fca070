-- ===== src/Dispatch/Rounds.antt =====
-- One round of the receive worker: the end of the stream.
use client_shared_lib.Base.{
  ℕ, ◌≡◌, ◌≢◌, refl, true, false, some, arith, set, get_elem?, set-same, set-other,
}
use client_shared_lib.Base.Int.{ℤ, pos, ◌==ℤ◌}
use client_shared_lib.Mem.{ok}
use client_shared_lib.Mem.Returns.{Returns, returns}
use client_shared_lib.Types.{TimeVal, Con, Globals}
use client_shared_lib.Peers.RoundRobin.{IsDown}
use client_shared_lib.Wire.{Received, lost}
use client_shared_lib.Dispatch.{Callbacks, has_attribute, dispatch, set_down, stored, received}
use client_shared_lib.Xml.{parse_xml_attribute}

set_down-ok :
    (i : ℕ) (g : Globals) {c : Con}
    → get_elem? g.conns i ≡ some c
    → set_down i g ≡ ok tt (record g { conns = set (g.conns) i (record c { state = 0 }) })
unfolding set_down
set_down-ok i g at_c = rw (set_down, at_c)

module _ (api : Callbacks) (k : ℕ) (curr : TimeVal) (i : ℕ) (rc : ℤ) (g : Globals) where
  -- When the stream ends and the round before has left a length that is not 0, the receive worker
  -- changes nothing: the connection stays marked as up.
  pub received-lost : (rc ==ℤ pos 0) ≡ false → received api k curr i rc lost g ≡ ok rc g
  unfolding received dispatch has_attribute parse_xml_attribute
  received-lost stale = rw stale

  -- When the length is 0 after receiving, on a connection of the table, that connection is marked
  -- as down, and the other connections and both queues stay.
  pub received-closed :
      (r : Received) {c : Con}
      → get_elem? g.conns i ≡ some c
      → (stored r.ret rc ==ℤ pos 0) ≡ true
      → Returns
          (λ _ g'.
            IsDown g'.conns i
            × ((j : ℕ) → j ≢ i → get_elem? g'.conns j ≡ get_elem? g.conns j)
            × (g'.ids ≡ g.ids)
            × (g'.msgs ≡ g.msgs))
          (received api k curr i rc r g)
  unfolding received
  received-closed r {c} at_c zero' =
      rw (zero', set_down-ok i g at_c)
        (returns (
          (record c { state = 0 }, set-same (g.conns) i _ at_c, omega arith),
          (λ j ne. set-other (g.conns) i j _ ne),
          refl,
          refl,
        ))
