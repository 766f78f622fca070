-- ===== src/Wire/RoundTrip.antt =====
-- What the sender of one end writes, the receiver of the other reads.
use client_shared_lib.Base.{
  ℕ, suc, ◌+◌, ◌<◌, ◌≡◌, refl, ap, ◌∙◌, sym, append-nil, append_assoc, true, false, Bool, some,
  List, [], ◌∷◌, ◌++◌, arith, ◌==◌, ltb, length, take, drop,
}
use client_shared_lib.Base.Int.{pos}
use client_shared_lib.Mem.{ok}
use client_shared_lib.Wire.{
  Inbound, receive_from_fd, SendAnswer, sent, would_block, Outbound, outbound, send_loop,
  send_to_fd, send_message,
}
use client_shared_lib.Wire.Header.{header, length_header-header}
use client_shared_lib.Wire.Recv.{Heads, Brings, receive_from_fd-message}
use client_shared_lib.Wire.Send.{take-add}

-- The answers up to `rest` take exactly `n` bytes, after as many refusals as there may be.
pub data Takes (rest : List SendAnswer) : List SendAnswer → ℕ → Type 0 where
  taken : Takes rest rest 0
  some_bytes :
      {answers : List SendAnswer} {n k : ℕ} (m : ℕ)
      → k ≡ suc m + n
      → Takes rest answers n
      → Takes rest (sent (suc m) ∷ answers) k
  waits :
      {answers : List SendAnswer} {n : ℕ}
      → Takes rest answers (suc n)
      → Takes rest (would_block ∷ answers) (suc n)

take-all : (xs : List ℕ) → take (length xs) xs ≡ xs
take-all [] = refl
take-all (x ∷ xs) = ap (λ ys. x ∷ ys) (take-all xs)

send_loop-end :
    (answers : List SendAnswer) (buf : List ℕ) (len : ℕ) (wire : List ℕ)
    → send_loop answers buf len len wire ≡ ok (pos len) (outbound answers wire)
unfolding send_loop
send_loop-end [] buf len wire = let t : ltb len len ≡ false = ground arith in rw t
send_loop-end (a ∷ answers) buf len wire = let t : ltb len len ≡ false = ground arith in rw t

module _ {rest : List SendAnswer} (buf base : List ℕ) (len : ℕ)
    (fits : ltb (length buf) len ≡ false) where
  send_loop-Takes :
      (total n : ℕ) {answers : List SendAnswer}
      → Takes rest answers n
      → total + n ≡ len
      → send_loop answers buf len total (base ++ take total buf)
        ≡ ok (pos len) (outbound rest (base ++ take len buf))
  unfolding send_loop
  send_loop-Takes total n taken e =
      let same : total ≡ len = omega arith in
      rw same (send_loop-end rest buf len (base ++ take len buf))
  send_loop-Takes total n (some_bytes {n = left} m k more) e =
      let t : ltb total len ≡ true = ground arith in
      let e' : base ++ take total buf ++ take (suc m) (drop total buf)
          ≡ base ++ take (total + suc m) buf =
        append_assoc base (take total buf) (take (suc m) (drop total buf))
        ∙ ap (λ xs. base ++ xs) (sym (take-add total (suc m) buf)) in
      let z : (suc m == 0) ≡ false = ground arith in
      rw (t, fits, z, e') (send_loop-Takes (total + suc m) left more (omega arith))
  send_loop-Takes total n (waits more) e =
      let t : ltb total len ≡ true = ground arith in rw (t, fits) (send_loop-Takes total n more e)

-- A kernel that takes the bytes, in pieces and after refusals, gets them all.
send_to_fd-Takes :
    {rest : List SendAnswer} (buf : List ℕ) (s : Outbound)
    → Takes rest (s.answers) (length buf)
    → send_to_fd buf (length buf) s ≡ ok (pos (length buf)) (outbound rest (s.wire ++ buf))
unfolding send_to_fd
send_to_fd-Takes {rest} buf s takes =
    rw (append-nil (s.wire)) at
      (send_loop-Takes buf (s.wire) (length buf) (ground arith) 0 (length buf) takes (omega arith))
    ∙ ap (λ xs. ok (pos (length buf)) (outbound rest (s.wire ++ xs))) (take-all buf)

-- If the kernel takes the four bytes of the length and then the whole message, which has less
-- than 10000 bytes, the wire holds the length followed by the message, and the connection is
-- marked as it was before.
pub send_message-wire :
    {rest mid : List SendAnswer} (up : Bool) (body : List ℕ) (s : Outbound)
    → length body < 10000
    → Takes mid (s.answers) 4
    → Takes rest mid (length body)
    → send_message up body (length body) s
      ≡ ok up (outbound rest (s.wire ++ (header (length body) ++ body)))
unfolding send_message
send_message-wire {rest} {mid} up body s small first second =
    rw
      (
        length_header-header (length body) small,
        send_to_fd-Takes (header (length body)) s first,
        send_to_fd-Takes body (outbound mid (s.wire ++ header (length body))) second,
        append_assoc (s.wire) (header (length body)) body,
        send_message,
      )
      (ground arith)

append-injective :
    (hs ks xs ys : List ℕ) → hs ++ xs ≡ ks ++ ys → length hs ≡ length ks → (hs ≡ ks) × (xs ≡ ys)
append-injective [] [] xs ys e size = (refl, e)
append-injective [] (k ∷ ks) xs ys e size = absurd (omega arith)
append-injective (h ∷ hs) [] xs ys e size = absurd (omega arith)
append-injective (h ∷ hs) (k ∷ ks) xs ys e size =
    let (same, rest) = append-injective hs ks xs ys (cc) (omega arith) in (cc, rest)

-- A message of less than 10000 bytes is sent over an idle connection whose kernel takes all of
-- it, in pieces and after refusals. If its bytes then come in at the other end, the four of the
-- length in one piece, or in pieces after each but the last of which errno is EINTR, EAGAIN or
-- EWOULDBLOCK, with calls that fail with one of these in between, and the others in any pieces,
-- with calls that fail in between, the message that is received is the one that was sent, with
-- its length.
pub send_message-receive :
    {rest mid : List SendAnswer} {left between : Inbound} (up : Bool) (body : List ℕ)
    (answers : List SendAnswer) (inbound : Inbound) (first second : List ℕ) {s : Outbound}
    → length body < 10000
    → Takes mid answers 4
    → Takes rest mid (length body)
    → send_message up body (length body) (outbound answers []) ≡ ok up s
    → Heads between inbound first
    → length first ≡ 4
    → Brings left between second
    → first ++ second ≡ s.wire
    → receive_from_fd inbound
      ≡ ok (record { message = some body; ret = some (pos (length body)) }) left
send_message-receive {between} up body answers inbound first second {s} small t1 t2 written heads
      four brings stream =
    let sent_all = send_message-wire up body (outbound answers []) small t1 t2 in
    let wire : s.wire ≡ header (length body) ++ body = cc in
    let (h, b) = append-injective first (header (length body)) second body (stream ∙ wire) four in
    receive_from_fd-message {mid = between} inbound body small (rw (← h) heads) (rw (← b) brings)
