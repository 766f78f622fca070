-- ===== src/System/Achieved.antt =====
-- The operations on one of the queues, or on the table, do what the service promises.
use client_shared_lib.Base.{
  Option, ℕ, ◌<◌, ◌≡◌, refl, sym, ap, ◌∙◌, true, some, List, [], ◌∷◌, length, get_elem?, set,
  get_elem?-some, length-set,
}
use client_shared_lib.Base.Int.{ℤ}
use client_shared_lib.Mem.Returns
use client_shared_lib.Mem.Returns.{Returns, returns}
use client_shared_lib.Mem.Seg.{Cells, Loose, Exact, IsQueue}
use client_shared_lib.Types.Lift.{put_ids-Returns}
use client_shared_lib.Types.{CString, TimeVal, Con, IdEntry, Msg, Globals, on_ids}
use client_shared_lib.IdQueue.{rem_id, list_expired}
use client_shared_lib.IdQueue.Add.{HasPeers}
use client_shared_lib.IdQueue.Entries.{find, refresh, erase}
use client_shared_lib.IdQueue.Entries
use client_shared_lib.IdQueue.Remove.{rem_id-erase}
use client_shared_lib.IdQueue.Expire.{list_expired-expire}
use client_shared_lib.MsgQueue.Unlink.{NoneFor}
use client_shared_lib.Connect.{EndPeer, Dial, fits_sndbuf}
use client_shared_lib.Connect.Repair.{redialed, recreate_conn-ok}
use client_shared_lib.Dispatch.{set_down}
use client_shared_lib.System.{Op, answer, expire, take, drop, restore, perform}
use client_shared_lib.System.Invariant.{Takable}
use client_shared_lib.System.Take.{Removed, none_there, one_gone, take_message-Left}
use client_shared_lib.System.Service.{
  Service, without_first, Does, answers, expires, takes, drops, restores, items, view, items-erase,
  items-expire,
}

-- The cells are those of the two queues, and the table serves every peer.
pub record Represents (g : Globals) (xs : Cells IdEntry) (ms : Cells Msg) : Type 0 where
  pub ids : IsQueue Loose g.ids xs
  pub msgs : IsQueue Exact g.msgs ms
  pub peers : HasPeers g

-- `g` stands for what `op` makes of the service `s`.
pub record Achieves (s : Service) (op : Op) (g : Globals) : Type 0 where
  pub entries : Cells IdEntry
  pub messages : Cells Msg
  pub represents : Represents g entries messages
  pub does : Does s op (view entries messages g)

without_first-none :
    (con : ℤ) (ms : Cells Msg) → NoneFor con ms → without_first con (items ms) ≡ items ms
unfolding without_first
without_first-none con [] other = refl
without_first-none con ((p, m) ∷ ms) (miss, other) = rw (miss, without_first-none con ms other) refl

without_first-Removed :
    {con : ℤ} {ms left : Cells Msg} {got : Option Msg}
    → Removed con ms got left
    → without_first con (items ms) ≡ items left
unfolding without_first
without_first-Removed {con} (none_there {ms} other) = without_first-none con ms other
without_first-Removed {con} (one_gone [] r m post other mine) = rw mine refl
without_first-Removed {con} (one_gone ((p, b) ∷ pre) r m post (miss, other) mine) =
    rw miss (ap (λ ns. b ∷ ns) (without_first-Removed (one_gone pre r m post other mine)))

module _ (g : Globals) {xs : Cells IdEntry} {ms : Cells Msg} (is : Represents g xs ms) where
  pub answer-Achieves :
      (k : ℕ) (tid : CString)
      → length xs < k
      → Returns (λ _. Achieves (view xs ms g) (answer k tid)) (on_ids (rem_id k tid) g)
  answer-Achieves k tid fuel =
      Returns.mono (put_ids-Returns g (rem_id-erase tid k (g.ids) is.ids fuel))
        λ _ g' (s, same, (q, _, _)). rw same (record {
          entries = erase tid xs;
          messages = ms;
          represents = record {
            ids = q;
            msgs = is.msgs;
            peers = record { table = is.peers.table; counter = is.peers.counter };
          };
          does = rw (items-erase tid xs) answers;
        })

  pub expire-Achieves :
      (k : ℕ) (clock : ℕ → TimeVal)
      → length xs < k
      → Returns (λ _. Achieves (view xs ms g) (expire k clock)) (on_ids (list_expired k clock) g)
  expire-Achieves k clock fuel =
      Returns.mono (put_ids-Returns g (list_expired-expire clock k (g.ids) is.ids fuel))
        λ _ g' (s, same, (q, _)). rw same (record {
          entries = Entries.expire clock 0 xs;
          messages = ms;
          represents = record {
            ids = q;
            msgs = is.msgs;
            peers = record { table = is.peers.table; counter = is.peers.counter };
          };
          does = rw (items-expire clock 0 xs) expires;
        })

  pub take-Achieves :
      (k : ℕ) (con : ℤ)
      → length ms < k
      → Takable con ms
      → Returns (λ _. Achieves (view xs ms g) (take k con)) (perform (take k con) g)
  unfolding perform
  take-Achieves k con fuel can =
      Returns.bind (take_message-Left g k con ms is.msgs fuel can) λ _ g' done. rw (done.same) (
        returns (record {
          entries = xs;
          messages = done.left;
          represents = record {
            ids = is.ids;
            msgs = done.queue;
            peers = record { table = is.peers.table; counter = is.peers.counter };
          };
          does = rw (sym (without_first-Removed done.removed)) takes;
        }))

  at_peer : (i : ℕ) → i < g.num_peers → (c : Con) × (get_elem? g.conns i ≡ some c)
  at_peer i h = get_elem?-some (g.conns) i (rw is.peers.table at h)

  -- another entry of the table
  with_con-Represents : (i : ℕ) (c : Con) → Represents (record g { conns = set g.conns i c }) xs ms
  with_con-Represents i c = record {
    ids = is.ids;
    msgs = is.msgs;
    peers = record {
      table = is.peers.table ∙ sym (length-set g.conns i c);
      counter = is.peers.counter;
    };
  }

  pub drop-Achieves :
      (i : ℕ) → i < g.num_peers → Returns (λ _. Achieves (view xs ms g) (drop i)) (set_down i g)
  unfolding set_down
  drop-Achieves i h =
      let (c, at_c) = at_peer i h in
      rw (set_down, at_c)
        (returns (record {
          entries = xs;
          messages = ms;
          represents = with_con-Represents i (record c { state = 0 });
          does = drops c at_c;
        }))

  pub restore-Achieves :
      (pid : ℕ) (peers : List EndPeer) (d : Dial) {p : EndPeer}
      → pid < g.num_peers
      → get_elem? peers pid ≡ some p
      → fits_sndbuf p.port ≡ true
      → Returns
          (λ _. Achieves (view xs ms g) (restore pid peers d))
          (perform (restore pid peers d) g)
  unfolding perform
  restore-Achieves pid peers d h at_p fits =
      let (c, at_c) = at_peer pid h in
      rw (recreate_conn-ok pid peers d (record { conns = g.conns; calls = [] }) at_p fits at_c) (
        returns (record {
          entries = xs;
          messages = ms;
          represents = with_con-Represents pid (redialed c d);
          does = restores c at_c;
        }))
