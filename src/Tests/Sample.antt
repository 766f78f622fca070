-- ===== src/Tests/Sample.antt =====
-- The state that the other tests start from.
use client_shared_lib.Base.{ℕ, refl, none, some, true, false, ◌+◌, [], ◌∷◌, arith}
use client_shared_lib.Base.Int.{pos}
use client_shared_lib.Mem.{Store, node, write}
use client_shared_lib.Mem.Seg.{Cells, IsQueue, Loose, Exact, nil, cons}
use client_shared_lib.Types.{CString, TimeVal, Con, Request, IdEntry, Msg, Globals}
use client_shared_lib.MsgQueue.{PushArgs}

abbrev pub id_a : CString
id_a = b'a' ∷ []

abbrev pub id_b : CString
id_b = b'b' ∷ b'1' ∷ []

abbrev pub id_c : CString
id_c = b'c' ∷ []

abbrev pub time : ℕ → TimeVal
time s = record { sec = s; usec = 500000 }

abbrev pub entry_a : IdEntry
entry_a = record {
  id = id_a;
  conn = 1;
  is_expired = true;
  a_time = time 100;
  e_time = time 130;
  callback_f = 70;
  callback_param = 71;
}

abbrev pub entry_b : IdEntry
entry_b = record {
  id = id_b;
  conn = 0;
  is_expired = false;
  a_time = time 120;
  e_time = time 150;
  callback_f = 72;
  callback_param = 73;
}

abbrev pub ids : Cells IdEntry
ids = (10, entry_a) ∷ (11, entry_b) ∷ []

abbrev pub id_store : Store IdEntry
id_store = record {
  heap = write (write (λ _. none) 10 (some (node entry_a 0 11))) 11 (some (node entry_b 10 0));
  head = 10;
}

pub id_store-IsQueue : IsQueue Loose id_store ids
unfolding write
id_store-IsQueue = cons {c = 0} (ground arith) tt refl (cons {c = 10} (ground arith) tt refl nil)

abbrev pub request : Request
request = record {
  req_buf = b'h' ∷ b'i' ∷ [];
  msg_len = 2;
  picked_up = false;
  no_transaction = false;
  id = id_c;
}

abbrev pub msg : CString → ℕ → Msg
msg i c = record { data_req = request; id = i; len = 2; conn = pos c }

abbrev pub msgs : Cells Msg
msgs = (20, msg id_a 1) ∷ (21, msg id_b 0) ∷ (22, msg id_a 1) ∷ []

abbrev pub msg_store : Store Msg
msg_store = record {
  heap =
      write
        (write (write (λ _. none) 20 (some (node (msg id_a 1) 0 21))) 21
          (some (node (msg id_b 0) 20 22)))
        22 (some (node (msg id_a 1) 21 0));
  head = 20;
}

pub msg_store-IsQueue : IsQueue Exact msg_store msgs
unfolding write
msg_store-IsQueue =
    cons (ground arith) refl refl
      (cons (ground arith) refl refl (cons (ground arith) refl refl nil))

abbrev pub con : ℕ → ℕ → Con
con i s = record { fd = pos (i + 5); state = s; peer_id = i }

-- The first connection is down, the second is up.
abbrev pub globals : Globals
globals = record {
  ids = id_store;
  msgs = msg_store;
  conns = con 0 0 ∷ con 1 1 ∷ [];
  num_peers = 2;
  rr = 0;
}

abbrev pub push_args : CString → PushArgs
push_args i = record { tid = i; len = 2; req = request; callback_f = 80; callback_param = 81 }
