-- ===== src/Client/Connects.antt =====
-- `onConect` of mod_tcpclient/withlibev/src/module.c. Its variable `client` is never set: what the
-- variable holds is the `ptr` of the state. What libevent returns is given.
use client_shared_lib.Base.{◌≡◌, refl, Bool, false, List, ◌==◌, if◌then◌else◌}
use client_shared_lib.Base.Int.{ℤ}
use client_shared_lib.Mem.{Ptr, null, Cmd, ok, fault, pure, ◌>>◌}
use client_shared_lib.Connect.{is_negative}
use client_shared_lib.Client.{
  Client, ClientPtr, no_client, client, freed, Clients, Release, close_and_free,
}

-- What `evbuffer_new`, `event_base_new`, `bufferevent_socket_new` and `bufferevent_socket_connect`
-- return.
pub record Made : Type 0 where
  pub output_buffer : Ptr
  pub evbase : Ptr
  pub buf_ev : Ptr
  pub connected : ℤ

-- `client->field = ...`
abbrev pub assign_at : ClientPtr → (Client → Client) → Cmd Clients (Unit {0})
assign_at no_client f = λ _. fault
assign_at (client c) f = λ s. ok tt (record s { ptr = client (f c) })
assign_at freed f = λ _. fault

abbrev pub assign : (Client → Client) → Cmd Clients (Unit {0})
assign f s = assign_at s.ptr f s

-- `bufferevent_setcb` on an address; `is_bufferevent` tells libevent's bufferevents
abbrev pub set_callbacks : (Ptr → Bool) → Ptr → Cmd Clients (Unit {0})
set_callbacks is_bufferevent p = if is_bufferevent p then pure tt else (λ _. fault)

-- `events` are the callbacks that the loop of libevent brings.
unfoldable pub on_connect :
    (Ptr → Bool) → Made → (events : Cmd Clients (Unit {0})) → Cmd Clients (Unit {0})
unfolding close_and_free
on_connect is_bufferevent made events = do
  assign (λ c. record c { output_buffer = made.output_buffer })
  if made.output_buffer == null then close_and_free else (do
    assign (λ c. record c { evbase = made.evbase })
    if made.evbase == null then close_and_free else (do
      assign (λ c. record c { buf_ev = made.buf_ev })
      set_callbacks is_bufferevent made.evbase
      if is_negative made.connected then close_and_free else events))

module _ (is_bufferevent : Ptr → Bool) (made : Made) (events : Cmd Clients (Unit {0})) where
  fault-at :
      (p : ClientPtr) (releases : List Release)
      → is_bufferevent made.evbase ≡ false
      → (made.output_buffer == null) ≡ false
      → (made.evbase == null) ≡ false
      → on_connect is_bufferevent made events (record { ptr = p; releases = releases }) ≡ fault
  unfolding on_connect
  fault-at no_client releases base some_buffer some_base = refl
  fault-at (client c) releases base some_buffer some_base = rw (some_buffer, some_base, base) refl
  fault-at freed releases base some_buffer some_base = refl

  -- Whatever the variable that is never set holds, `onConect` goes wrong once libevent has made a
  -- buffer and a base that is no bufferevent: at the first assignment, or when the callbacks are
  -- set on the base.
  pub on_connect-fault :
      (s : Clients)
      → is_bufferevent made.evbase ≡ false
      → (made.output_buffer == null) ≡ false
      → (made.evbase == null) ≡ false
      → on_connect is_bufferevent made events s ≡ fault
  on_connect-fault s = fault-at (s.ptr) (s.releases)
