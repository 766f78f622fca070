-- ===== src/MsgQueue.antt =====
-- The message queue of mod_tcpclient/src/task.c: the list of `msgque_t` that wait for their
-- connection's sender. A loop runs on fuel; the theorems ask for more than the queue's length.
pub mod Dangling
pub mod Finish
pub mod Pop
pub mod Push
pub mod Routed
pub mod Tail
pub mod Unlink
use client_shared_lib.Base.{
  ℕ, zero, suc, Bool, true, false, Option, none, some, ◌==◌, leb, length, if◌then◌else◌,
}
use client_shared_lib.Base.Int.{ℤ, pos, negsuc, ◌==ℤ◌}
use client_shared_lib.Mem.{
  Ptr, null, Store, Cmd, ok, fault, out_of_fuel, pure, ◌>>=◌, ◌>>◌, load, set_next, set_prev,
  set_item, get_head, set_head, alloc,
}
use client_shared_lib.Mem.Append.{link_last}
use client_shared_lib.Types.{
  CString, TimeVal, Request, Msg, Globals, on_ids, on_msgs, key_size, is_empty, blank_msg,
}
use client_shared_lib.IdQueue.{is_id_present, update_entry, add_entry}

abbrev pub MsgStore : Type 0
MsgStore = Store Msg

-- What `push_to_msgq` is called with.
pub record PushArgs : Type 0 where
  pub tid : CString
  pub len : ℕ
  pub req : Request
  pub callback_f : Ptr
  pub callback_param : Ptr

-- `strcpy(temp->id, temp_id)` writes past `id[KEY_SIZE]` unless the NUL has room too.
abbrev pub fits_key : CString → Bool
fits_key tid = leb (suc (length tid)) key_size

abbrev pub new_msg : PushArgs → ℤ → Msg
new_msg a con = record { data_req = a.req; id = a.tid; len = a.len; conn = con }

-- The connection of the message: that of the entry with its id, which is refreshed, or that of a
-- new entry. `ktemp` is what the `calloc` of the new entry returns.
route : (k spin : ℕ) → (ktemp : Ptr) → TimeVal → PushArgs → Option ℕ → Cmd Globals ℤ
route k spin ktemp now a (some con) = do
  ret ← on_ids (update_entry k now a.tid a.callback_f a.callback_param)
  if ret ==ℤ negsuc 0
      then add_entry k spin ktemp now a.tid a.callback_f a.callback_param
      else pure (pos con)
route k spin ktemp now a none = add_entry k spin ktemp now a.tid a.callback_f a.callback_param

-- `temp` is what the `calloc` of the message returns. It is lost when `tid` is empty.
pub push_to_msgq : (k spin : ℕ) → (temp ktemp : Ptr) → TimeVal → PushArgs → Cmd Globals (Unit {0})
unfolding route
push_to_msgq k spin temp ktemp now a = do
  on_msgs (alloc temp blank_msg)
  if is_empty a.tid
      then pure tt
      else (if fits_key a.tid
          then (do
            on_msgs (set_item temp (new_msg a (negsuc 0)))
            present ← on_ids (is_id_present k a.tid)
            con ← route k spin ktemp now a present
            on_msgs (set_item temp (new_msg a con))
            on_msgs (link_last k temp))
          else (λ _. fault))

-- `temp->next->prev = temp->prev; temp->prev->next = temp->next;` where there is a next node
unlink : Ptr → Ptr → Cmd MsgStore (Unit {0})
unlink prev next = if next == null then pure tt else do set_prev next prev; set_next prev next

pub pop_loop : ℕ → ℤ → Ptr → Cmd MsgStore Ptr
pop_loop zero con temp = λ _. out_of_fuel
pop_loop (suc k) con temp = if temp == null then pure null else do
  n ← load temp
  if n.item.conn ==ℤ con
      then (do unlink n.prev n.next; set_prev temp null; set_next temp null; pure temp)
      else pop_loop k con n.next

-- `if (*head) (*head)->prev = NULL;`
clear_prev : Ptr → Cmd MsgStore (Unit {0})
clear_prev head = if head == null then pure tt else set_prev head null

-- The result is the address of the node, NULL if there is none for the connection.
pub pop_from_msgq : ℕ → ℤ → Cmd MsgStore Ptr
unfolding pop_loop unlink clear_prev
pop_from_msgq k con = do
  temp ← get_head
  if temp == null then pure null else do
    n ← load temp
    if n.item.conn ==ℤ con
        then (do
          set_head n.next
          clear_prev n.next
          set_prev temp null
          set_next temp null
          pure temp)
        else pop_loop k con temp
