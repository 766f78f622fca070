-- ===== src/System/Kept.antt =====
-- The operations on one of the queues, or on the table, keep the state well formed.
use client_shared_lib.Base.{
  ℕ, ◌<◌, ◌≡◌, sym, ap, ◌∙◌, true, some, List, [], get_elem?, length, set, get_elem?-some,
  length-set,
}
use client_shared_lib.Mem.{Store}
use client_shared_lib.Mem.Returns
use client_shared_lib.Mem.Returns.{Returns, returns}
use client_shared_lib.Mem.Seg.{Cells, Loose, Exact, IsQueue, IsQueue-unique}
use client_shared_lib.Types.Lift.{put_ids-Returns}
use client_shared_lib.Types.{CString, TimeVal, Con, IdEntry, Msg, Globals, on_ids}
use client_shared_lib.IdQueue.{rem_id, list_expired}
use client_shared_lib.IdQueue.Entries.{find, refresh, erase, IsDistinct}
use client_shared_lib.IdQueue.Entries
use client_shared_lib.IdQueue.Whole
use client_shared_lib.IdQueue.Whole.{AllServed}
use client_shared_lib.IdQueue.Remove.{rem_id-erase}
use client_shared_lib.IdQueue.Expire.{list_expired-expire}
use client_shared_lib.MsgQueue.{MsgStore}
use client_shared_lib.MsgQueue.Routed.{AllRouted}
use client_shared_lib.Connect.{EndPeer, Dial, fits_sndbuf}
use client_shared_lib.Connect.Repair.{redialed, recreate_conn-ok}
use client_shared_lib.Dispatch.{set_down}
use client_shared_lib.System.{restore, perform}
use client_shared_lib.System.Invariant.{WellFormed}

-- An operation keeps everything but one of the queues, or the table.
pub with_entries :
    (g : Globals) (w : WellFormed g) (s : Store IdEntry) (xs : Cells IdEntry)
    → IsQueue Loose s xs
    → IsDistinct xs
    → AllServed g.num_peers xs
    → WellFormed (record g { ids = s })
with_entries g w s xs q apart all = record {
  entries = xs;
  messages = w.messages;
  ids = q;
  msgs = w.msgs;
  distinct = apart;
  served = all;
  routed = w.routed;
  peers = record { table = w.peers.table; counter = w.peers.counter };
}

pub with_messages :
    (g : Globals) (w : WellFormed g) (s : MsgStore) (ms : Cells Msg)
    → IsQueue Exact s ms
    → AllRouted g.num_peers ms
    → WellFormed (record g { msgs = s })
with_messages g w s ms q all = record {
  entries = w.entries;
  messages = ms;
  ids = w.ids;
  msgs = q;
  distinct = w.distinct;
  served = w.served;
  routed = all;
  peers = record { table = w.peers.table; counter = w.peers.counter };
}

pub with_con :
    (g : Globals) (w : WellFormed g) (i : ℕ) (c : Con)
    → WellFormed (record g { conns = set g.conns i c })
with_con g w i c = record {
  entries = w.entries;
  messages = w.messages;
  ids = w.ids;
  msgs = w.msgs;
  distinct = w.distinct;
  served = w.served;
  routed = w.routed;
  peers = record {
    table = w.peers.table ∙ sym (length-set g.conns i c);
    counter = w.peers.counter;
  };
}

module _ (g : Globals) (w : WellFormed g) where
  pub answer-WellFormed :
      (k : ℕ) (tid : CString) {xs : Cells IdEntry}
      → IsQueue Loose g.ids xs
      → length xs < k
      → Returns (λ _. WellFormed) (on_ids (rem_id k tid) g)
  answer-WellFormed k tid q fuel =
      let e = IsQueue-unique (g.ids) q w.ids in
      Returns.mono (put_ids-Returns g (rem_id-erase tid k (g.ids) w.ids (rw (ap length e) at fuel)))
        λ _ g' (s, is, (q', _, _)). rw is (
          with_entries g w s (erase tid w.entries) q'
            (Whole.erase-IsDistinct tid w.entries w.distinct)
            (Whole.erase-AllServed tid g.num_peers w.entries w.served))

  pub expire-WellFormed :
      (k : ℕ) (clock : ℕ → TimeVal) {xs : Cells IdEntry}
      → IsQueue Loose g.ids xs
      → length xs < k
      → Returns (λ _. WellFormed) (on_ids (list_expired k clock) g)
  expire-WellFormed k clock q fuel =
      let e = IsQueue-unique (g.ids) q w.ids in
      Returns.mono
        (put_ids-Returns g (list_expired-expire clock k (g.ids) w.ids (rw (ap length e) at fuel)))
        λ _ g' (s, is, (q', _)). rw is (
          with_entries g w s (Entries.expire clock 0 w.entries) q'
            (Whole.expire-IsDistinct clock 0 w.entries w.distinct)
            (Whole.expire-AllServed clock g.num_peers 0 w.entries w.served))

  at_peer : (i : ℕ) → i < g.num_peers → (c : Con) × (get_elem? g.conns i ≡ some c)
  at_peer i h = get_elem?-some (g.conns) i (rw w.peers.table at h)

  pub drop-WellFormed : (i : ℕ) → i < g.num_peers → Returns (λ _. WellFormed) (set_down i g)
  unfolding set_down
  drop-WellFormed i h =
      let (c, at_c) = at_peer i h in
      rw (set_down, at_c) (returns (with_con g w i (record c { state = 0 })))

  pub restore-WellFormed :
      (pid : ℕ) (peers : List EndPeer) (d : Dial) {p : EndPeer}
      → pid < g.num_peers
      → get_elem? peers pid ≡ some p
      → fits_sndbuf p.port ≡ true
      → Returns (λ _. WellFormed) (perform (restore pid peers d) g)
  unfolding perform
  restore-WellFormed pid peers d h at_p fits =
      let (c, at_c) = at_peer pid h in
      rw (recreate_conn-ok pid peers d (record { conns = g.conns; calls = [] }) at_p fits at_c)
        (returns (with_con g w pid (redialed c d)))
