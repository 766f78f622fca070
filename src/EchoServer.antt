-- ===== src/EchoServer.antt =====
-- The test server of mod_tcpclient/src/server.c: `func`, which answers over a connection, and `main`,
-- which waits for the one connection that it serves. What the kernel answers is given.
pub mod Stuck
use client_shared_lib.Base.{
  ℕ, zero, suc, ◌+◌, ◌%◌, Bool, true, false, ◌&&◌, List, [], ◌∷◌, ◌++◌, ◌==◌, take, if◌then◌else◌,
}
use client_shared_lib.Base.Int.{ℤ, pos, negsuc, ◌==ℤ◌}
use client_shared_lib.Mem.{Run, Cmd, ok, fault, out_of_fuel, pure, ◌>>=◌, ◌>>◌}
use client_shared_lib.Connect.{is_negative}

-- `MAX`
abbrev pub max_size : ℕ
max_size = 80

abbrev pub repeated : ℕ → ℕ → List ℕ
repeated zero c = []
repeated (suc n) c = c ∷ repeated n c

-- `buff` after `bzero` and `read`, which brings at most `sizeof(buff)` bytes, or none
abbrev pub filled : List ℕ → List ℕ
filled bytes = take max_size (bytes ++ repeated max_size 0)

-- `buff[0] + 1`, in the `unsigned char` that `memset` stores
abbrev pub next_char : List ℕ → ℕ
next_char [] = 1
next_char (c ∷ s) = (c + 1) % 256

abbrev pub has_nul : List ℕ → Bool
has_nul [] = false
has_nul (c ∷ s) = if c == 0 then true else has_nul s

-- What has been printed from the buffer, and what was written to the connection.
pub record Echo : Type 0 where
  pub printed : List (List ℕ)
  pub written : List (List ℕ)

-- `printf` with `%s`, which reads past an array that holds no NUL
unfoldable pub print : List ℕ → Cmd Echo (Unit {0})
print buff s = if has_nul buff then ok tt (record s { printed = s.printed ++ buff ∷ [] }) else fault

-- `strncmp("exit", buff, 4) == 0`
abbrev pub is_exit : List ℕ → Bool
is_exit (a ∷ b ∷ c ∷ d ∷ s) = (a == b'e') && ((b == b'x') && ((c == b'i') && (d == b't')))
is_exit s = false

abbrev pub write_echo : List ℕ → Cmd Echo (Unit {0})
write_echo buff s = ok tt (record s { written = s.written ++ buff ∷ [] })

-- The loop, over what the calls of `read` bring; it has not ended when they are used up.
unfoldable pub func : List (List ℕ) → Cmd Echo (Unit {0})
unfolding print
func [] s = out_of_fuel
func (bytes ∷ reads) s =
    (do
      print (filled bytes)
      print (repeated max_size (next_char (filled bytes)))
      write_echo (repeated max_size (next_char (filled bytes)))
      (let rest = func reads in
          if is_exit (repeated max_size (next_char (filled bytes))) then pure tt else rest))
      s

pub data ServerCall : Type 0 where
  binds : ℤ → ServerCall
  listens : ℤ → ServerCall
  accepts : ℤ → ServerCall
  closes : ℤ → ServerCall

pub record Server : Type 0 where
  pub echo : Echo
  pub calls : List ServerCall

-- what the system calls of `main` return
pub record Answers : Type 0 where
  pub sock : ℤ
  pub bound : ℤ
  pub listening : ℤ
  pub conn : ℤ

abbrev pub server_call : ServerCall → Cmd Server (Unit {0})
server_call c s = ok tt (record s { calls = s.calls ++ c ∷ [] })

abbrev pub put_echo : Server → Run Echo (Unit {0}) → Run Server (Unit {0})
put_echo s (ok a e) = ok a (record s { echo = e })
put_echo s fault = fault
put_echo s out_of_fuel = out_of_fuel

-- The result is the status of the program: every failure ends it with 0.
unfoldable pub main : Answers → List (List ℕ) → Cmd Server ℕ
unfolding func
main a reads = if a.sock ==ℤ negsuc 0 then pure 0 else do
  server_call (binds a.sock)
  if a.bound ==ℤ pos 0
      then (do
        server_call (listens a.sock)
        if a.listening ==ℤ pos 0
            then (do
              server_call (accepts a.sock)
              if is_negative a.conn then pure 0 else do
                (λ s. put_echo s (func reads s.echo))
                server_call (closes a.sock)
                pure 0)
            else pure 0)
      else pure 0
