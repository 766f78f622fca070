-- ===== src/IdQueue.antt =====
-- The transaction queue of mod_tcpclient/src/task.c: the list of `tsidque_t` that remembers for
-- each id the connection, the callback and the time at which it expires. A loop runs on fuel; the
-- theorems ask for more than the length of the queue.
pub mod Add
pub mod Entries
pub mod Expire
pub mod Lookup
pub mod Remove
pub mod Update
pub mod Whole
use client_shared_lib.Base.{
  ℕ, zero, suc, ◌+◌, ◌/◌, Bool, true, false, ◌&&◌, ◌||◌, Option, none, some, ◌==◌, ltb, str_eq,
  if◌then◌else◌,
}
use client_shared_lib.Base.Int.{ℤ, pos, negsuc, sub_ℕ, ◌+ℤ◌, ◌*ℤ◌, tdiv}
use client_shared_lib.Mem.{
  Ptr, null, Store, Cmd, ok, fault, out_of_fuel, pure, ◌>>=◌, ◌>>◌, load, set_next, set_item,
  get_head, set_head, free, alloc,
}
use client_shared_lib.Mem.Append.{link_last}
use client_shared_lib.Types.{
  CString, TimeVal, IdEntry, Globals, on_ids, on_rr, expiry, is_empty, blank_entry,
}
use client_shared_lib.Peers.{get_peers, reassign_conn}

abbrev pub IdStore : Type 0
IdStore = Store IdEntry

-- `temp->ETime.tv_sec += EXPIRY`
abbrev pub expires : TimeVal → TimeVal
expires t = record t { sec = t.sec + expiry }

-- the comparison in `list_expired_idq`
abbrev pub is_past : TimeVal → TimeVal → Bool
is_past e now = ltb e.sec now.sec || ((e.sec == now.sec) && ltb e.usec now.usec)

-- `(curr.tv_sec - ATime.tv_sec)*1000 + (curr.tv_usec - ATime.tv_usec)/1000`
unfoldable pub time_elapsed : TimeVal → TimeVal → ℤ
time_elapsed curr a = sub_ℕ curr.sec a.sec *ℤ 1000 +ℤ tdiv (sub_ℕ curr.usec a.usec) 1000

-- The result is `some conn` for 1 with `*conn` set, and `none` for 0 with `*conn` left alone.
is_present_loop : ℕ → CString → Ptr → Cmd IdStore (Option ℕ)
is_present_loop zero tid temp = λ _. out_of_fuel
is_present_loop (suc k) tid temp = if temp == null then pure none else do
  n ← load temp
  if str_eq tid n.item.id then pure (some n.item.conn) else is_present_loop k tid n.next

pub is_id_present : ℕ → CString → Cmd IdStore (Option ℕ)
unfolding is_present_loop
is_id_present k tid = do
  head ← get_head
  if head == null
      then pure none
      else (if is_empty tid then pure none else is_present_loop k tid head)

-- What `lookup_ID_idq` hands out: `*elapsed_msecs` and the four fields that it copies.
pub record Found : Type 0 where
  pub elapsed_msecs : ℤ
  pub id : CString
  pub is_expired : Bool
  pub callback_f : Ptr
  pub callback_param : Ptr

abbrev pub found : TimeVal → IdEntry → Found
found curr e = record {
  elapsed_msecs = time_elapsed curr e.a_time;
  id = e.id;
  is_expired = e.is_expired;
  callback_f = e.callback_f;
  callback_param = e.callback_param;
}

lookup_loop : ℕ → TimeVal → CString → Ptr → Cmd IdStore (Option Found)
lookup_loop zero curr tid temp = λ _. out_of_fuel
lookup_loop (suc k) curr tid temp = if temp == null then pure none else do
  n ← load temp
  if str_eq tid n.item.id then pure (some (found curr n.item)) else lookup_loop k curr tid n.next

-- `curr` is the time that `gettimeofday` returns; the result 0 comes with 0 milliseconds.
pub lookup_id : ℕ → TimeVal → CString → Cmd IdStore (Option Found)
unfolding lookup_loop
lookup_id k curr tid = do
  head ← get_head
  if head == null
      then pure none
      else (if is_empty tid then pure none else lookup_loop k curr tid head)

-- the entry after `update_entry_idq`
abbrev pub refreshed : TimeVal → Ptr → Ptr → IdEntry → IdEntry
refreshed now f param e = record e {
  a_time = now;
  e_time = expires now;
  callback_f = f;
  callback_param = param;
}

update_loop : ℕ → TimeVal → CString → Ptr → Ptr → Ptr → Cmd IdStore ℤ
update_loop zero now tid f param temp = λ _. out_of_fuel
update_loop (suc k) now tid f param temp = if temp == null then pure (negsuc 0) else do
  n ← load temp
  if str_eq tid n.item.id
      then (do set_item temp (refreshed now f param n.item); pure (pos n.item.conn))
      else update_loop k now tid f param n.next

pub update_entry : ℕ → TimeVal → CString → (f param : Ptr) → Cmd IdStore ℤ
unfolding update_loop
update_entry k now tid f param = do
  head ← get_head
  if head == null then pure (pos 0) else update_loop k now tid f param head

-- the entry that `add_entry_idq` fills in, before it has a connection
abbrev pub new_entry : TimeVal → CString → (f param : Ptr) → IdEntry
new_entry now tid f param = record {
  id = tid;
  conn = 0;
  is_expired = false;
  a_time = now;
  e_time = expires now;
  callback_f = f;
  callback_param = param;
}

-- `temp` is what `calloc` returns, `spin` the fuel of the search for a connection. The blank node
-- is lost when `tid` is empty.
pub add_entry : (k spin : ℕ) → (temp : Ptr) → TimeVal → CString → (f param : Ptr) → Cmd Globals ℤ
add_entry k spin temp now tid f param = do
  on_ids (alloc temp blank_entry)
  if is_empty tid then pure (negsuc 0) else do
    on_ids (set_item temp (new_entry now tid f param))
    con ← on_rr (λ g. reassign_conn spin g.conns (get_peers g))
    on_ids (set_item temp (record (new_entry now tid f param) { conn = con }))
    on_ids (link_last k temp)
    pure (pos con)

-- `clock i` is the time that the `i`-th call of `gettimeofday` returns.
expire_loop : ℕ → (ℕ → TimeVal) → ℕ → Ptr → Cmd IdStore (Unit {0})
expire_loop zero clock i current = λ _. out_of_fuel
expire_loop (suc k) clock i current = if current == null then pure tt else do
  n ← load current
  (if is_past n.item.e_time (clock i)
      then set_item current (record (n.item) { is_expired = true })
      else pure tt)
  expire_loop k clock (suc i) n.next

pub list_expired : ℕ → (ℕ → TimeVal) → Cmd IdStore (Unit {0})
unfolding expire_loop
list_expired k clock = do current ← get_head; expire_loop k clock 0 current

-- `current` is not NULL.
remove_loop : ℕ → CString → Ptr → Cmd IdStore (Unit {0})
remove_loop zero tid current = λ _. out_of_fuel
remove_loop (suc k) tid current = do
  c ← load current
  if c.next == null then pure tt else do
    n ← load c.next
    if str_eq n.item.id tid
        then (do set_next current n.next; free c.next)
        else remove_loop k tid c.next

pub rem_id : ℕ → CString → Cmd IdStore (Unit {0})
unfolding remove_loop
rem_id k tid = do
  current ← get_head
  if current == null then pure tt else do
    n ← load current
    if str_eq n.item.id tid then (do set_head n.next; free current) else remove_loop k tid current
