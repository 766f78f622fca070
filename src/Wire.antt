-- ===== src/Wire.antt =====
-- Messages on a socket: `send_to_fd` and `receive_from_fd` of mod_tcpclient/src/work.c, and the
-- length in front of a message that `send_worker_thread` writes. What the kernel answers to the
-- calls of `send` and `recv`, and the `errno` that is found after them, is a list of answers; when
-- it is used up and the loop goes on, the call has not returned.
pub mod Header
pub mod Recv
pub mod Send
pub mod RoundTrip
use client_shared_lib.Base.{
  ℕ, zero, suc, ◌+◌, ◌-◌, ◌*◌, ◌/◌, ◌%◌, ◌^◌, Bool, true, false, ◌&&◌, ◌||◌, Option, none, some,
  List, [], ◌∷◌, ◌++◌, ◌==◌, ltb, leb, length, take, drop, if◌then◌else◌,
}
use client_shared_lib.Base.Int.{ℤ, pos, negsuc, sub_ℕ}
use client_shared_lib.Mem.{Run, ok, fault, out_of_fuel, Cmd, pure, ◌>>=◌}

-- `send` took `n` bytes, failed with EAGAIN or EWOULDBLOCK, or failed otherwise.
pub data SendAnswer : Type 0 where
  sent : ℕ → SendAnswer
  would_block : SendAnswer
  failed : SendAnswer

-- The answers to come, and the bytes that the kernel has taken.
pub record Outbound : Type 0 where
  pub answers : List SendAnswer
  pub wire : List ℕ

abbrev pub outbound : List SendAnswer → List ℕ → Outbound
outbound answers wire = record { answers = answers; wire = wire }

-- A call of `send` that asks for bytes behind the end of `buf` is a fault.
unfoldable pub send_loop :
    List SendAnswer → (buf : List ℕ) → (len total_sent : ℕ) → List ℕ → Run Outbound ℤ
send_loop [] buf len total_sent wire =
    if ltb total_sent len then out_of_fuel else ok (pos total_sent) (outbound [] wire)
send_loop (a ∷ answers) buf len total_sent wire =
    if ltb total_sent len
    then (if ltb (length buf) len then fault else elim a [
      | sent n ↦
          (let rest =
              send_loop answers buf len (total_sent + n) (wire ++ take n (drop total_sent buf)) in
            if n == 0 then ok (negsuc 0) (outbound answers wire) else rest)
      | would_block ↦ send_loop answers buf len total_sent wire
      | failed ↦ ok (negsuc 0) (outbound answers wire)
    ])
    else ok (pos total_sent) (outbound (a ∷ answers) wire)

unfoldable pub send_to_fd : List ℕ → ℕ → Cmd Outbound ℤ
unfolding send_loop
send_to_fd buf len s = send_loop (s.answers) buf len 0 (s.wire)

-- C's `isspace` and `isdigit`
abbrev pub is_space : ℕ → Bool
is_space c = (c == b' ') || (leb 9 c && leb c 13)

abbrev pub is_digit : ℕ → Bool
is_digit c = leb b'0' c && leb c b'9'

-- The digits at the head of a string, as a number.
abbrev pub digits : ℕ → List ℕ → ℕ
digits acc [] = acc
digits acc (c ∷ s) = if is_digit c then digits (acc * 10 + (c - b'0')) s else acc

abbrev pub signed : List ℕ → ℤ
signed [] = pos 0
signed (c ∷ s) =
    if c == b'-'
    then sub_ℕ 0 (digits 0 s)
    else (if c == b'+' then pos (digits 0 s) else pos (digits 0 (c ∷ s)))

-- The number that a string starts with: blanks, a sign, digits.
abbrev pub number : List ℕ → ℤ
number [] = pos 0
number (c ∷ s) = if is_space c then number s else signed (c ∷ s)

-- the `int` whose 32 bits are `low`
abbrev from_low : ℕ → ℤ
from_low low = if ltb low (2 ^ 31) then pos low else negsuc (2 ^ 32 - 1 - low)

-- `LONG_MAX`
abbrev long_max : ℕ
long_max = 2 ^ 63 - 1

abbrev at_most_long : ℕ → ℕ
at_most_long n = if leb n long_max then n else long_max

-- A number as a `long`, which stops at its bounds, cut to the 32 bits of an `int`.
unfoldable pub to_int : ℤ → ℤ
to_int (pos n) = from_low (at_most_long n % 2 ^ 32)
to_int (negsuc n) = from_low (2 ^ 32 - 1 - at_most_long n % 2 ^ 32)

-- C's `atoi`, as the C library of the platform has it: `(int) strtol(s, NULL, 10)`
abbrev pub atoi : List ℕ → ℤ
atoi s = to_int (number s)

-- `sprintf(msglen, "%04d", len)`, with `char msglen[5]`: five digits and their NUL do not fit.
unfoldable pub length_header : ℕ → Option (List ℕ)
length_header len =
    if ltb len 10000
    then some (
        (b'0' + len / 1000)
        ∷ (b'0' + len / 100 % 10)
        ∷ (b'0' + len / 10 % 10)
        ∷ (b'0' + len % 10)
        ∷ [])
    else none

-- `recv` put these bytes into the buffer, met the end of the stream, or failed. The Boolean says
-- whether `errno` is then EWOULDBLOCK, EAGAIN or EINTR: `recv` does not clear it when it succeeds.
pub data RecvAnswer : Type 0 where
  got : List ℕ → Bool → RecvAnswer
  eof : RecvAnswer
  error : Bool → RecvAnswer

-- the answers to come
abbrev pub Inbound : Type 0
Inbound = List RecvAnswer

-- `again:` `lenbuf` holds the bytes that have come, `total_size` is what is asked for. The result
-- is `lenbuf`, or `none` at the end of the stream.
unfoldable pub recv_header :
    Inbound → (lenbuf : List ℕ) → (total_size : ℕ) → Run Inbound (Option (List ℕ))
recv_header [] lenbuf total_size = out_of_fuel
recv_header (got bytes retry ∷ answers) lenbuf total_size =
    let again = recv_header answers (lenbuf ++ bytes) (total_size - length bytes) in
    if length bytes == total_size
    then ok (some (lenbuf ++ bytes)) answers
    else (if retry then again else ok (some (lenbuf ++ bytes)) answers)
recv_header (eof ∷ answers) lenbuf total_size = ok none answers
recv_header (error retry ∷ answers) lenbuf total_size =
    let again = recv_header answers lenbuf total_size in
    if retry then again else ok (some lenbuf) answers

-- The second loop. An error of any kind is tried again.
unfoldable pub recv_body :
    Inbound → (received : ℕ) → (read_buf : List ℕ) → Run Inbound (Option (List ℕ))
recv_body [] received read_buf =
    if ltb (length read_buf) received then out_of_fuel else ok (some read_buf) []
recv_body (a ∷ answers) received read_buf =
    if ltb (length read_buf) received
    then elim a [
      | got bytes retry ↦ recv_body answers received (read_buf ++ bytes)
      | eof ↦ ok none answers
      | error retry ↦ recv_body answers received read_buf
    ]
    else ok (some read_buf) (a ∷ answers)

-- The message, and `*ret`: `none` where the function returns without writing it.
pub record Received : Type 0 where
  pub message : Option (List ℕ)
  pub ret : Option ℤ

abbrev pub lost : Received
lost = record { message = none; ret = none }

abbrev pub from_body : ℕ → Run Inbound (Option (List ℕ)) → Run Inbound Received
from_body n (ok none answers) = ok lost answers
from_body n (ok (some body) answers) =
    ok (record { message = some body; ret = some (pos n) }) answers
from_body n fault = fault
from_body n out_of_fuel = out_of_fuel

-- `calloc(received + 1)` for the length that was announced. It fails for a negative size; of no
-- bytes at all, for -1, even the first is read past the end.
abbrev pub with_length : ℤ → Inbound → Run Inbound Received
with_length (pos n) answers = from_body n (recv_body answers n [])
with_length (negsuc zero) answers = fault
with_length (negsuc (suc n)) answers =
    ok (record { message = none; ret = some (negsuc (suc n)) }) answers

abbrev pub from_header : Run Inbound (Option (List ℕ)) → Run Inbound Received
from_header (ok none answers) = ok lost answers
from_header (ok (some lenbuf) answers) = with_length (atoi lenbuf) answers
from_header fault = fault
from_header out_of_fuel = out_of_fuel

unfoldable pub receive_from_fd : Cmd Inbound Received
unfolding recv_header recv_body
receive_from_fd answers = from_header (recv_header answers [] 4)

-- The part of `send_worker_thread` that writes one message: `none` for a length that does not fit
-- `msglen`. A failed call marks the connection, and the next part is sent all the same. The result
-- says whether the connection is still marked as up.
abbrev pub not_failed : ℤ → Bool
not_failed (pos n) = true
not_failed (negsuc n) = false

unfoldable pub send_message : (up : Bool) → (buf : List ℕ) → (len : ℕ) → Cmd Outbound Bool
send_message up buf len = elim (length_header len) [
  | none ↦ (λ _. fault)
  | some msglen ↦ (do
    rc ← send_to_fd msglen (length msglen)
    rc' ← send_to_fd buf len
    pure (up && (not_failed rc && not_failed rc')))
]
