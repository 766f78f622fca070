-- ===== src/Client.antt =====
-- The client of mod_tcpclient/withlibev/src/module.c: what its callbacks do with the descriptor and
-- the three objects of libevent that it holds. libevent's buffers are a parameter.
pub mod Connects
pub mod Frees
pub mod Reads
use client_shared_lib.Base.{
  ℕ, zero, suc, Bool, true, false, List, [], ◌∷◌, ◌++◌, ◌==◌, ltb, if◌then◌else◌,
}
use client_shared_lib.Base.Int.{ℤ, pos, negsuc}
use client_shared_lib.Mem.{Ptr, null, Run, Cmd, ok, fault, out_of_fuel, pure, ◌>>=◌, ◌>>◌}

-- `client_t`
pub record Client : Type 0 where
  pub fd : ℤ
  pub evbase : Ptr
  pub buf_ev : Ptr
  pub output_buffer : Ptr

-- A `client_t *`: NULL, a client, or one that has been given back.
pub data ClientPtr : Type 0 where
  no_client : ClientPtr
  client : Client → ClientPtr
  freed : ClientPtr

-- What the client gives back to the kernel and to libevent.
pub data Release : Type 0 where
  closes : ℤ → Release
  frees_bufferevent : Ptr → Release
  frees_base : Ptr → Release
  frees_buffer : Ptr → Release

pub record Clients : Type 0 where
  pub ptr : ClientPtr
  pub releases : List Release

abbrev pub is_open : ℤ → Bool
is_open (pos n) = true
is_open (negsuc n) = false

-- a call that gives `r` back, where there is something to give back
abbrev pub release : Bool → Release → Cmd Clients (Unit {0})
release true r s = ok tt (record s { releases = s.releases ++ r ∷ [] })
release false r s = ok tt s

abbrev pub is_some : Ptr → Bool
is_some p = if p == null then false else true

-- `closeClient`; the field becomes -1 where it was none already.
abbrev pub close_at : ClientPtr → Cmd Clients (Unit {0})
close_at no_client = pure tt
close_at (client c) = do
  release (is_open c.fd) (closes c.fd)
  (λ s.
      ok tt
        (record s { ptr = client (record c { fd = (if is_open c.fd then negsuc 0 else c.fd) }) }))
close_at freed = λ _. fault

unfoldable pub close_client : Cmd Clients (Unit {0})
close_client s = close_at s.ptr s

-- `closeAndFreeClient`; that the fields become NULL cannot be seen, since the client is freed.
abbrev pub free_at : ClientPtr → Cmd Clients (Unit {0})
free_at no_client = pure tt
free_at (client c) = do
  close_at (client c)
  release (is_some c.buf_ev) (frees_bufferevent c.buf_ev)
  release (is_some c.evbase) (frees_base c.evbase)
  release (is_some c.output_buffer) (frees_buffer c.output_buffer)
  (λ s. ok tt (record s { ptr = freed }))
free_at freed = λ _. fault

unfoldable pub close_and_free : Cmd Clients (Unit {0})
close_and_free s = free_at s.ptr s

-- `buffered_on_error`
unfoldable pub buffered_on_error : Cmd Clients (Unit {0})
unfolding close_client
buffered_on_error = close_client

-- `job_function`, where `events` are the callbacks that the loop of libevent brings; that the job is
-- given back is left out.
unfoldable pub job_function : Cmd Clients (Unit {0}) → Cmd Clients (Unit {0})
unfolding close_and_free
job_function events = events >> close_and_free

-- libevent's buffers; `write_buffer` is what `bufferevent_write_buffer` returns.
pub record Evbuffers (B : Type 0) : Type 0 where
  pub size : B → ℕ
  pub remove : B → ℕ → List ℕ × B
  pub add : B → List ℕ → B
  pub write_buffer : B → ℤ × B

pub record Buffers (B : Type 0) : Type 0 where
  pub input : B
  pub output : B

-- what `buffered_on_read` works on
pub record Reading (B : Type 0) : Type 0 where
  pub buffers : Buffers B
  pub clients : Clients

abbrev pub is_zero : ℤ → Bool
is_zero (pos n) = n == 0
is_zero (negsuc n) = false

-- `if (nbytes > 4096) nbytes = 4096;`
abbrev pub piece : ℕ → ℕ
piece nbytes = if ltb 4096 nbytes then 4096 else nbytes

module _ {B : Type 0} where
  abbrev pub put_clients : Buffers B → Run Clients (Unit {0}) → Run (Reading B) (Unit {0})
  put_clients b (ok a s) = ok a (record { buffers = b; clients = s })
  put_clients b fault = fault
  put_clients b out_of_fuel = out_of_fuel

module _ {B : Type 0} (api : Evbuffers B) where
  -- the loop of `buffered_on_read`
  unfoldable pub copy_loop : ℕ → Cmd (Buffers B) (Unit {0})
  copy_loop zero s = out_of_fuel
  copy_loop (suc k) s =
      let moved = api.remove s.input (piece (api.size s.input)) in
      let rest = copy_loop k (record { input = moved.1; output = api.add s.output moved.0 }) in
      if api.size s.input == 0 then ok tt s else rest

  -- after the loop: a failure closes the client
  abbrev pub write_out : Clients → Run (Buffers B) (Unit {0}) → Run (Reading B) (Unit {0})
  write_out s (ok a b) =
      put_clients (record b { output = (api.write_buffer b.output).1 })
        (if is_zero ((api.write_buffer b.output).0) then ok tt s else close_client s)
  write_out s fault = fault
  write_out s out_of_fuel = out_of_fuel

  -- `client->output_buffer`, of a client that is there
  abbrev pub read_at : ClientPtr → ℕ → Cmd (Reading B) (Unit {0})
  read_at no_client k r = fault
  read_at (client c) k r = write_out r.clients (copy_loop k r.buffers)
  read_at freed k r = fault

  unfoldable pub buffered_on_read : ℕ → Cmd (Reading B) (Unit {0})
  unfolding copy_loop close_client
  buffered_on_read k r = read_at r.clients.ptr k r
