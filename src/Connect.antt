-- ===== src/Connect.antt =====
-- The connections to the peers: `create_peers`, `recreate_conn` and `monitor_sock_conn` of
-- mod_tcpclient/src/task.c, and the loop of `recv_worker_thread` that waits for a connection. What
-- `socket`, `connect` and `getsockopt` return is given; the options that are set on a new socket, and
-- the lookup of the address, are left out.
pub mod Table
pub mod Repair
pub mod Monitor
use client_shared_lib.Base.{
  ℕ, zero, suc, ◌+◌, Bool, true, false, ◌&&◌, Option, none, some, List, [], ◌∷◌, ◌++◌, ◌==◌, leb,
  set, get_elem?, length, if◌then◌else◌,
}
use client_shared_lib.Base.Int.{ℤ, pos, negsuc, ◌==ℤ◌}
use client_shared_lib.Mem.{Run, Cmd, ok, fault, out_of_fuel, pure, ◌>>=◌, ◌>>◌}
use client_shared_lib.Types.{CString, Con}

-- `end_peers`
pub record EndPeer : Type 0 where
  pub port : ℕ
  pub ip : CString

-- What the thread asks of the kernel for a connection.
pub data Call : Type 0 where
  connects : ℤ → Call
  closes : ℤ → Call

-- `gconn_list`, and the calls so far
pub record Net : Type 0 where
  pub conns : List Con
  pub calls : List Call

abbrev pub is_negative : ℤ → Bool
is_negative (pos n) = false
is_negative (negsuc n) = true

-- `sprintf(sndbuf, "%d", port)`, with `char sndbuf[5]`
abbrev pub fits_sndbuf : ℕ → Bool
fits_sndbuf port = leb port 9999

abbrev pub call : Call → Cmd Net (Unit {0})
call c s = ok tt (record s { calls = s.calls ++ c ∷ [] })

unfoldable pub conn_at : ℕ → Cmd Net Con
conn_at i s = elim (get_elem? s.conns i) [ none ↦ fault | some c ↦ ok c s ]

abbrev pub put_conn : ℕ → Con → Cmd Net (Unit {0})
put_conn i c s = ok tt (record s { conns = set (s.conns) i c })

-- `calloc`
abbrev pub blank_con : Con
blank_con = record { fd = pos 0; state = 0; peer_id = 0 }

abbrev pub blanks : List EndPeer → List Con
blanks [] = []
blanks (p ∷ peers) = blank_con ∷ blanks peers

-- What `socket` returns, and `connect` at its first and its second call.
pub record Attempt : Type 0 where
  pub sock : ℤ
  pub first : ℤ
  pub second : ℤ

-- The end of a round of `create_peers`; true: the loop goes on.
abbrev pub up : ℕ → ℤ → Cmd Net Bool
up i conn = put_conn i (record { fd = conn; state = 1; peer_id = i }) >> pure true

-- One round; false: the program exits. A second attempt is made on the descriptor just closed.
unfoldable pub create_peer : ℕ → EndPeer → Attempt → Cmd Net Bool
create_peer i p a =
    if fits_sndbuf p.port
    then (if is_negative a.sock then pure false else do
      call (connects a.sock)
      if is_negative a.first
          then (do
            call (closes a.sock)
            call (connects a.sock)
            if is_negative a.second then pure true else up i a.sock)
          else up i a.sock)
    else (λ _. fault)

unfoldable pub create_loop : ℕ → List EndPeer → (ℕ → Attempt) → Cmd Net Bool
create_loop i [] attempt = pure true
create_loop i (p ∷ peers) attempt = do
  goes_on ← create_peer i p (attempt i)
  if goes_on then create_loop (suc i) peers attempt else pure false

-- `cfg->num_peers` is the length of `cfg->peers`.
unfoldable pub create_peers : List EndPeer → (ℕ → Attempt) → List Call → Run Net Bool
create_peers peers attempt calls =
    create_loop 0 peers attempt (record { conns = blanks peers; calls = calls })

-- What `socket` and `connect` return to a thread that restores a connection.
pub record Dial : Type 0 where
  pub sock : ℤ
  pub rc : ℤ

-- the end of `recreate_conn`, and of a round of `monitor_sock_conn`
abbrev pub dial : ℕ → Con → Dial → Cmd Net (Unit {0})
dial i c d = do
  put_conn i (record c { state = 0; fd = d.sock })
  call (connects d.sock)
  if is_negative d.rc then pure tt else put_conn i (record c { state = 1; fd = d.sock })

abbrev pub port_of : Option EndPeer → Cmd Net ℕ
port_of none = λ _. fault
port_of (some p) = pure p.port

-- The descriptor of before is not closed.
unfoldable pub recreate_conn : ℕ → List EndPeer → Dial → Cmd Net (Unit {0})
recreate_conn pid peers d = do
  port ← port_of (get_elem? peers pid)
  c ← conn_at pid
  if fits_sndbuf port then dial pid c d else (λ _. fault)

-- `while (c->state != 1)`, for the connection `i`; `dials` holds what the kernel answers to each
-- attempt, and the loop goes on when they are used up.
unfoldable pub reconnect : ℕ → List EndPeer → List Dial → Cmd Net (Unit {0})
reconnect i peers [] = do c ← conn_at i; if c.state == 1 then pure tt else (λ _. out_of_fuel)
reconnect i peers (d ∷ dials) = do
  c ← conn_at i
  if c.state == 1 then pure tt else recreate_conn c.peer_id peers d >> reconnect i peers dials

-- `getsockopt` and its `err`, and the answers to the attempt to restore the connection
pub record Health : Type 0 where
  pub rc : ℤ
  pub err : ℤ
  pub again : Dial

abbrev pub is_healthy : Health → Bool
is_healthy h = (h.rc ==ℤ pos 0) && (h.err ==ℤ pos 0)

unfoldable pub monitor_loop : ℕ → List EndPeer → (ℕ → Health) → Cmd Net (Unit {0})
monitor_loop i [] health = pure tt
monitor_loop i (p ∷ peers) health = do
  c ← conn_at i
  (if is_healthy (health i) then pure tt else do
    call (closes c.fd)
    if fits_sndbuf p.port then dial i c (health i).again else (λ _. fault))
  monitor_loop (suc i) peers health

unfoldable pub monitor_sock_conn : List EndPeer → (ℕ → Health) → Cmd Net (Unit {0})
monitor_sock_conn peers health = monitor_loop 0 peers health

-- `setnonblock`, which nothing calls: `flags` and `rc` are what its two calls of `fcntl` return.
unfoldable pub setnonblock : (flags rc : ℤ) → ℤ
setnonblock flags rc =
    if is_negative flags then flags else (if is_negative rc then negsuc 0 else pos 0)
