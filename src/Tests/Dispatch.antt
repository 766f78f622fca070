-- ===== src/Tests/Dispatch.antt =====
-- Messages for the receive worker.
use client_shared_lib.Wire.{to_int}
use client_shared_lib.Base.{ℕ, ◌≡◌, refl, some, List, [], ◌∷◌, ◌++◌, arith, length, str_eq}
use client_shared_lib.Base.Int.{pos}
use client_shared_lib.Mem.{ok}
use client_shared_lib.Mem.Returns.{Returns, returns}
use client_shared_lib.Mem.Seg.{IsQueue, Loose}
use client_shared_lib.Types.{CString}
use client_shared_lib.IdQueue.Entries.{find, erase}
use client_shared_lib.Xml.{parse_xml_attribute, scan, starts_with}
use client_shared_lib.Dispatch.{
  Callbacks, Incoming, has_attribute, copy_attribute, dispatch, open_tag, close_tag, event_name,
  type_name, tid_name, reply_code_name,
}
use client_shared_lib.Dispatch.Responses.{IsResponse, dispatch-known, dispatch-once}
use client_shared_lib.Tests.Sample.{id_a, time, entry_a, ids, id_store-IsQueue, globals}

-- callbacks that leave a trace in the counter
abbrev pub api : Callbacks
api = record {
  reg_req_cb = λ t r e g. ok tt (record g { rr = 1 });
  callback_f = λ f t p r e g. ok tt (record g { rr = 1 });
}

abbrev pub tagged : List ℕ → List ℕ → List ℕ
tagged name value = open_tag name ++ (value ++ close_tag name)

abbrev pub incoming : List ℕ → Incoming
incoming text = record { message = some text; rc = pos (length text) }

abbrev pub answer_text : CString → List ℕ
answer_text tid =
    tagged type_name (b'2' ∷ []) ++ (tagged tid_name tid ++ tagged reply_code_name (b'7' ∷ []))

abbrev pub answer : CString → Incoming
answer tid = incoming (answer_text tid)

pub answer_a-IsResponse : IsResponse (answer id_a) id_a
unfolding has_attribute copy_attribute parse_xml_attribute scan starts_with to_int
answer_a-IsResponse = record { typed = refl; answers = refl; plain = λ e. refl; of_tid = refl }

dispatch-known_example :
    Returns
      (λ _ g'. IsQueue Loose g'.ids (erase id_a ids))
      (dispatch api 3 (time 125) (answer id_a) globals)
unfolding find str_eq
dispatch-known_example =
    dispatch-known api 3 (time 125) (answer id_a) id_a globals id_store-IsQueue (omega arith)
      answer_a-IsResponse entry_a refl refl refl (returns (id_store-IsQueue, omega arith))

dispatch-once_example :
    Returns
      (λ _ g'. dispatch api 3 (time 126) (answer id_a) g' ≡ ok tt g')
      (dispatch api 3 (time 125) (answer id_a) globals)
unfolding find str_eq
dispatch-once_example =
    dispatch-once api 3 (time 125) (answer id_a) id_a globals entry_a (time 126) id_store-IsQueue
      (omega arith) answer_a-IsResponse refl refl refl (refl, (refl, tt))
      (returns (id_store-IsQueue, omega arith)) (omega arith)

abbrev pub event_of_a : Incoming
event_of_a =
    incoming
      (tagged event_name (b'1' ∷ []) ++ (tagged type_name (b'1' ∷ []) ++ tagged tid_name id_a))
