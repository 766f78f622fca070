-- ===== src/Tests/Fifo.antt =====
-- Two reads and then the end text.
use client_shared_lib.Base.{◌≡◌, refl, ℕ, none, some, List, [], ◌∷◌, arith, str_eq}
use client_shared_lib.Mem.{ok}
use client_shared_lib.Fifo.{FifoReader, end_text, read_fifo}
use client_shared_lib.Fifo.Relay.{AllGoOn, brought, read_fifo-end}

abbrev start : FifoReader
start = record { printed = []; opened = 0; closed = 0 }

-- what two writes have brought to one read, and then a read that brings nothing
abbrev reads : List (List ℕ)
reads = (b'h' ∷ b'i' ∷ b'y' ∷ b'o' ∷ []) ∷ [] ∷ []

reads-AllGoOn : AllGoOn reads
unfolding str_eq
reads-AllGoOn = (omega arith, refl, (omega arith, refl, tt))

-- After the end text a read would fail.
read_fifo-end_example :
    read_fifo (brought reads (some end_text ∷ none ∷ [])) start
    ≡ ok tt (record {
      printed = (b'h' ∷ b'i' ∷ b'y' ∷ b'o' ∷ []) ∷ [] ∷ end_text ∷ [];
      opened = 3;
      closed = 1;
    })
unfolding str_eq
read_fifo-end_example =
    read_fifo-end reads end_text (none ∷ []) start reads-AllGoOn (omega arith) refl
