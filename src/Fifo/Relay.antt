-- ===== src/Fifo/Relay.antt =====
-- What the one program writes, and what the other prints of the reads that it is brought.
use client_shared_lib.Base.{
  ℕ, suc, ◌+◌, ◌<◌, ◌≡◌, refl, ◌∙◌, ap, true, false, some, Option, List, [], ◌∷◌, ◌++◌,
  append_assoc, append-nil, arith, length, leb, ◌==◌, str_eq,
}
use client_shared_lib.Mem.{ok}
use client_shared_lib.Types.{CString}
use client_shared_lib.Dispatch.{c_string}
use client_shared_lib.Fifo.{
  end_text, Written, write_text, drop_last, write_lines, FifoReader, read_fifo,
}

abbrev HasNoNul : CString → Type 0
HasNoNul [] = Unit {0}
HasNoNul (c ∷ text) = ((c == 0) ≡ false) × HasNoNul text

-- A line that has room in the buffer, with no NUL and no end of line in it, and does not end the programs.
record IsLine (text : CString) : Type 0 where
  no_nul : HasNoNul text
  fits : length text < 79
  other : str_eq text end_text ≡ false

abbrev AllLines : List CString → Type 0
AllLines [] = Unit {0}
AllLines (text ∷ texts) = IsLine text × AllLines texts

-- the texts as `fgets` brings them, and then the last line
abbrev input : List CString → List (Option (List ℕ))
input [] = some (end_text ++ b'\n' ∷ []) ∷ []
input (text ∷ texts) = some (text ++ b'\n' ∷ []) ∷ input texts

c_string-line :
    (text rest : CString)
    → HasNoNul text
    → c_string rest ≡ rest
    → c_string (text ++ rest) ≡ text ++ rest
c_string-line [] rest none_there e = e
c_string-line (c ∷ text) rest (first, more) e = rw (first, c_string-line text rest more e) refl

drop_last-line : (text : CString) → drop_last (text ++ b'\n' ∷ []) ≡ text
drop_last-line [] = refl
drop_last-line (c ∷ []) = refl
drop_last-line (c ∷ d ∷ text) = ap (λ s. c ∷ s) (drop_last-line (d ∷ text))

write_text-line :
    (text : CString) (s : Written) → write_text (text ++ b'\n' ∷ []) s ≡ ok text (s ++ text ∷ [])
write_text-line [] s = refl
write_text-line (c ∷ text) s = rw (drop_last-line (c ∷ text)) refl

-- For lines that have room in the buffer, with no NUL in them, followed by the end text, the writing
-- program ends and has written the lines and the end text, in their order.
write_lines-input :
    (texts : List CString) (readbuf : CString) (s : Written)
    → AllLines texts
    → write_lines (input texts) readbuf s ≡ ok tt (s ++ (texts ++ end_text ∷ []))
unfolding write_lines str_eq
write_lines-input [] readbuf s lines = refl
write_lines-input (text ∷ texts) readbuf s (line, lines) =
    rw (c_string-line text (b'\n' ∷ []) (line.no_nul) refl, write_text-line text s, line.other)
      (write_lines-input texts text (s ++ text ∷ []) lines
        ∙ ap (λ xs. ok tt xs) (append_assoc s (text ∷ []) (texts ++ end_text ∷ [])))

-- what a read has brought fits into the buffer, and is not the end text
abbrev pub AllGoOn : List (List ℕ) → Type 0
AllGoOn [] = Unit {0}
AllGoOn (bytes ∷ reads) =
    (length bytes < 80) × (str_eq (c_string bytes) end_text ≡ false) × AllGoOn reads

-- reads that bring something, and what the program is brought later
abbrev pub brought : List (List ℕ) → List (Option (List ℕ)) → List (Option (List ℕ))
brought [] later = later
brought (bytes ∷ reads) later = some bytes ∷ brought reads later

abbrev pub texts_of : List (List ℕ) → List CString
texts_of [] = []
texts_of (bytes ∷ reads) = c_string bytes ∷ texts_of reads

-- The reader, when it has gone on with `reads`.
abbrev pub gone_on : List (List ℕ) → FifoReader → FifoReader
gone_on reads s = record s {
  printed = s.printed ++ texts_of reads;
  opened = s.opened + length reads;
}

read_fifo-brought :
    (reads : List (List ℕ)) (later : List (Option (List ℕ))) (s : FifoReader)
    → AllGoOn reads
    → read_fifo (brought reads later) s ≡ read_fifo later (gone_on reads s)
unfolding read_fifo
read_fifo-brought [] later s all =
    let none_more : s.opened + 0 ≡ s.opened = omega arith in
    rw (append-nil (s.printed), none_more) refl
read_fifo-brought (bytes ∷ reads) later s (fits, other, all) =
    let short : leb 80 (length bytes) ≡ false = ground arith in
    let count : (s.opened + 1) + length reads ≡ s.opened + suc (length reads) = omega arith in
    rw (short, other)
      (read_fifo-brought reads later
          (record s { printed = s.printed ++ c_string bytes ∷ []; opened = s.opened + 1 }) all
        ∙ rw (append_assoc (s.printed) (c_string bytes ∷ []) (texts_of reads), count) refl)

-- Whatever reads the program fifo.c is brought, each of less than 80 bytes and not the end text,
-- and then the end text, it ends, leaves alone what comes later, and has printed the reads and
-- the end text in their order, each up to its first NUL; it has opened the FIFO once for each
-- read and closed it once.
pub read_fifo-end :
    (reads : List (List ℕ)) (last : List ℕ) (later : List (Option (List ℕ))) (s : FifoReader)
    → AllGoOn reads
    → length last < 80
    → str_eq (c_string last) end_text ≡ true
    → read_fifo (brought reads (some last ∷ later)) s
      ≡ ok tt (record {
        printed = s.printed ++ texts_of reads ++ c_string last ∷ [];
        opened = s.opened + length reads + 1;
        closed = s.closed + 1;
      })
unfolding read_fifo
read_fifo-end reads last later s all fits over =
    let short : leb 80 (length last) ≡ false = ground arith in
    read_fifo-brought reads (some last ∷ later) s all ∙ rw (short, over) refl
