-- ===== src/Fifo.antt =====
-- The pair of programs that try out a FIFO: `main` of stub/src/cf.c, which writes the lines of its
-- input, and `main` of stub/src/fifo.c, which reads and prints. What `fgets` and `read` bring is given.
pub mod Relay
use client_shared_lib.Base.{
  ℕ, zero, suc, ◌+◌, Option, none, some, List, [], ◌∷◌, ◌++◌, leb, length, str_eq, if◌then◌else◌,
}
use client_shared_lib.Types.{CString}
use client_shared_lib.Mem.{Cmd, ok, fault, out_of_fuel, pure, ◌>>=◌, ◌>>◌}
use client_shared_lib.Dispatch.{c_string}

-- `"end"`
abbrev pub end_text : CString
end_text = b'e' ∷ b'n' ∷ b'd' ∷ []

-- the strings that were written
abbrev pub Written : Type 0
Written = List CString

-- `readbuf` after `fgets`, which leaves it alone at the end of the input
abbrev pub line_of : Option (List ℕ) → CString → CString
line_of none readbuf = readbuf
line_of (some line) readbuf = c_string line

abbrev pub drop_last : CString → CString
drop_last [] = []
drop_last (c ∷ []) = []
drop_last (c ∷ d ∷ s) = c ∷ drop_last (d ∷ s)

-- A round up to the comparison: `readbuf[stringlen - 1] = '\0'`, which writes in front of the array
-- when the string is empty, and the write.
abbrev pub write_text : CString → Cmd Written CString
write_text [] s = fault
write_text (c ∷ text) s = ok (drop_last (c ∷ text)) (s ++ drop_last (c ∷ text) ∷ [])

-- The loop of cf.c, over what `fgets` brings.
unfoldable pub write_lines : List (Option (List ℕ)) → (readbuf : CString) → Cmd Written (Unit {0})
write_lines [] readbuf = λ _. out_of_fuel
write_lines (line ∷ lines) readbuf = do
  text ← write_text (line_of line readbuf)
  (let rest = write_lines lines text in if str_eq text end_text then pure tt else rest)

-- What fifo.c has printed, and how often it has opened and closed the FIFO.
pub record FifoReader : Type 0 where
  pub printed : List CString
  pub opened : ℕ
  pub closed : ℕ

-- a round up to the comparison: a read that fails, or fills the 80 bytes, puts the NUL outside
abbrev pub read_text : Option (List ℕ) → Cmd FifoReader CString
read_text none s = fault
read_text (some bytes) s =
    if leb 80 (length bytes)
    then fault
    else ok (c_string bytes) (record {
      printed = s.printed ++ c_string bytes ∷ [];
      opened = s.opened + 1;
      closed = s.closed;
    })

abbrev pub close_fifo : Cmd FifoReader (Unit {0})
close_fifo s = ok tt (record s { closed = s.closed + 1 })

-- The loop of fifo.c, over what `read` brings. Each round opens the FIFO; only the last closes it.
unfoldable pub read_fifo : List (Option (List ℕ)) → Cmd FifoReader (Unit {0})
read_fifo [] = λ _. out_of_fuel
read_fifo (bytes ∷ reads) = do
  text ← read_text bytes
  (let rest = read_fifo reads in if str_eq text end_text then close_fifo else rest)
