-- ===== src/Tests/Transaction.antt =====
-- A transaction on a library with an empty message queue, whose second connection is up.
use client_shared_lib.Wire.{to_int}
use client_shared_lib.Base.{ℕ, zero, suc, ◌≡◌, refl, false, [], ◌∷◌, ◌++◌, arith, drop, str_eq}
use client_shared_lib.Base.Int.{pos}
use client_shared_lib.Mem.{write}
use client_shared_lib.Mem.Returns.{Returns, returns}
use client_shared_lib.Mem.Seg.{IsQueue, Loose, Exact}
use client_shared_lib.Peers.RoundRobin.{IsUp}
use client_shared_lib.IdQueue.Entries.{find}
use client_shared_lib.MsgQueue.{push_to_msgq}
use client_shared_lib.Xml.{parse_xml_attribute, scan, starts_with}
use client_shared_lib.Dispatch.{has_attribute, copy_attribute}
use client_shared_lib.Dispatch.Responses.{IsResponse}
use client_shared_lib.Wire.{Inbound, got, eof, sent, outbound}
use client_shared_lib.Wire.Header.{header}
use client_shared_lib.Wire.Recv.{whole, done, piece}
use client_shared_lib.Wire.RoundTrip.{taken, some_bytes}
use client_shared_lib.Sender.{send_round}
use client_shared_lib.Receiver.{recv_rounds}
use client_shared_lib.Receiver.Stream.{Carries, over, message, incoming}
use client_shared_lib.System.Transaction.{IsNumbered, push_to_msgq-answered}
use client_shared_lib.Tests.Sample.{id_c, time, ids, con, push_args, request}
use client_shared_lib.Tests.Dispatch.{api, answer_text}
use client_shared_lib.Tests.Sender.{idle, idle-CanPush}
use client_shared_lib.Tests.Connect.{peers, accepted}

abbrev answer_bytes : Inbound
answer_bytes = got (b'0' ∷ b'0' ∷ b'5' ∷ b'2' ∷ []) false ∷ got (answer_text id_c) false ∷ eof ∷ []

answer_bytes-Carries : Carries (eof ∷ []) answer_bytes (answer_text id_c ∷ [])
answer_bytes-Carries =
    message (omega arith) (omega arith) (whole (b'0' ∷ b'0' ∷ b'5' ∷ b'2' ∷ []) false)
      (piece b'<' (drop 1 (answer_text id_c)) false done) over

answer_c-IsResponse : IsResponse (incoming (answer_text id_c)) id_c
unfolding has_attribute copy_attribute parse_xml_attribute scan starts_with to_int
answer_c-IsResponse = record { typed = refl; answers = refl; plain = λ e. refl; of_tid = refl }

idle-IsNumbered : IsNumbered idle.conns
idle-IsNumbered zero c at_c = ground arith
idle-IsNumbered (suc zero) c at_c = ground arith
idle-IsNumbered (suc (suc j)) c at_c = cc

push_to_msgq-answered_example :
    Returns
      (λ _ g'.
        (c : ℕ) × IsUp idle.conns c
        × Returns
            (λ _ s.
              (s.out ≡ outbound [] (header 2 ++ request.req_buf))
              × Returns
                  (λ _ v.
                    IsQueue Loose v.globals.ids ids
                    × IsQueue Exact v.globals.msgs []
                    × (v.globals.conns ≡ idle.conns)
                    × (v.inbound ≡ eof ∷ []))
                  (recv_rounds api 4 peers c
                    (record { dials = []; curr = time 126 } ∷ [])
                    (pos 0)
                    (record { globals = s.globals; inbound = answer_bytes; calls = [] })))
            (send_round 4 peers c accepted
              (record { globals = g'; out = outbound (sent 4 ∷ sent 2 ∷ []) []; calls = [] })))
      (push_to_msgq 4 2 23 12 (time 125) (push_args id_c) idle)
unfolding find str_eq write
push_to_msgq-answered_example =
    push_to_msgq-answered api 4 2 23 12 (time 125) (push_args id_c)
      (record { dials = []; curr = time 126 }) (answer_text id_c) peers accepted (pos 0) [] idle
      (outbound (sent 4 ∷ sent 2 ∷ []) []) 1 idle-CanPush refl refl refl
      (record { table = refl; counter = omega arith }) idle-IsNumbered (omega arith)
      (con 1 1, refl, refl) (omega arith) (omega arith) refl (omega arith) (some_bytes 3 refl taken)
      (some_bytes 1 refl taken) answer_bytes-Carries answer_c-IsResponse refl
      (λ h. returns (record { ids = refl; conns = refl; msgs = refl }))
