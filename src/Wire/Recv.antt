-- ===== src/Wire/Recv.antt =====
-- `receive_from_fd` puts a message together from the pieces that the stream comes in.
use client_shared_lib.Base.{
  ℕ, ◌+◌, ◌-◌, ◌<◌, ◌≡◌, refl, append-nil, append_assoc, true, false, Bool, some, List, [], ◌∷◌,
  ◌++◌, arith, ◌==◌, ltb, length, length-append,
}
use client_shared_lib.Base.Int.{pos}
use client_shared_lib.Mem.{ok}
use client_shared_lib.Wire.{got, error, Inbound, recv_body, receive_from_fd, recv_header}
use client_shared_lib.Wire.Header.{header, atoi-header}

-- The answers up to `rest` bring the bytes `body`, in pieces of at least one byte, and with errors
-- in between.
pub data Brings (rest : Inbound) : Inbound → List ℕ → Type 0 where
  done : Brings rest rest []
  piece :
      {answers : Inbound} {body : List ℕ} (b : ℕ) (bytes : List ℕ) (retry : Bool)
      → Brings rest answers body
      → Brings rest (got (b ∷ bytes) retry ∷ answers) (b ∷ (bytes ++ body))
  retried :
      {answers : Inbound} {b : ℕ} {body : List ℕ} (retry : Bool)
      → Brings rest answers (b ∷ body)
      → Brings rest (error retry ∷ answers) (b ∷ body)

-- The answers up to `rest` bring the bytes of a length, in one piece, as `MSG_WAITALL` asks for, or
-- in pieces after each but the last of which `errno` is one of the three, with calls that fail with
-- one of these in between.
pub data Heads (rest : Inbound) : Inbound → List ℕ → Type 0 where
  whole : (bytes : List ℕ) (retry : Bool) → Heads rest (got bytes retry ∷ rest) bytes
  part :
      {answers : Inbound} {b : ℕ} {more : List ℕ} (bytes : List ℕ)
      → Heads rest answers (b ∷ more)
      → Heads rest (got bytes true ∷ answers) (bytes ++ b ∷ more)
  interrupted :
      {answers : Inbound} {bytes : List ℕ}
      → Heads rest answers bytes
      → Heads rest (error true ∷ answers) bytes

recv_body-full :
    (answers : Inbound) (n : ℕ) (buf : List ℕ)
    → length buf ≡ n
    → recv_body answers n buf ≡ ok (some buf) answers
unfolding recv_body
recv_body-full [] n buf e = let t : ltb (length buf) n ≡ false = ground arith in rw t
recv_body-full (a ∷ answers) n buf e = let t : ltb (length buf) n ≡ false = ground arith in rw t

module _ {rest : Inbound} where
  recv_body-Brings :
      (n : ℕ) (buf : List ℕ) {answers : Inbound} {body : List ℕ}
      → Brings rest answers body
      → length buf + length body ≡ n
      → recv_body answers n buf ≡ ok (some (buf ++ body)) rest
  unfolding recv_body
  recv_body-Brings n buf done e = rw (append-nil buf) (recv_body-full rest n buf (omega arith))
  recv_body-Brings n buf (piece {body} b bytes retry more) e =
      let t : ltb (length buf) n ≡ true = ground arith in
      rw (t, ← append_assoc buf (b ∷ bytes) body)
        (recv_body-Brings n (buf ++ b ∷ bytes) more
          (omega (arith, length-append buf (b ∷ bytes), length-append bytes body)))
  recv_body-Brings n buf (retried retry more) e =
      let t : ltb (length buf) n ≡ true = ground arith in rw t (recv_body-Brings n buf more e)

  recv_header-Heads :
      (lenbuf : List ℕ) (n : ℕ) {answers : Inbound} {bytes : List ℕ}
      → Heads rest answers bytes
      → length bytes ≡ n
      → recv_header answers lenbuf n ≡ ok (some (lenbuf ++ bytes)) rest
  unfolding recv_header
  recv_header-Heads lenbuf n (whole bytes retry) e =
      let t : (length bytes == n) ≡ true = ground arith in rw t
  recv_header-Heads lenbuf n (part {b} {more} bytes h) e =
      let size = length-append bytes (b ∷ more) in
      let t : (length bytes == n) ≡ false = ground (arith, size) in
      rw (t, ← append_assoc lenbuf bytes (b ∷ more))
        (recv_header-Heads (lenbuf ++ bytes) (n - length bytes) h (omega (arith, size)))
  recv_header-Heads lenbuf n (interrupted h) e = recv_header-Heads lenbuf n h e

-- A message of less than 10000 bytes that comes in with its length in front is received whole, in
-- any pieces and with any errors in between, if its length comes as above, and nothing behind it
-- is read.
pub receive_from_fd-message :
    {rest mid : Inbound} (answers : Inbound) (body : List ℕ)
    → length body < 10000
    → Heads mid answers (header (length body))
    → Brings rest mid body
    → receive_from_fd answers
      ≡ ok (record { message = some body; ret = some (pos (length body)) }) rest
unfolding receive_from_fd
receive_from_fd-message answers body small h b = rw (
  recv_header-Heads [] 4 h refl,
  atoi-header (length body) small,
  recv_body-Brings (length body) [] b (omega arith),
)
