-- ===== src/Reader/File.antt =====
-- What is read of a whole file.
use client_shared_lib.Base.{
  ℕ, suc, ◌≡◌, refl, ap, true, false, List, [], ◌∷◌, ◌++◌, arith, length, zero, ◌<◌, ◌∙◌,
  append_assoc, append-nil, ◌==◌, Bool-cases, inl, inr, if◌then◌else◌,
}
use client_shared_lib.Types.{CString}
use client_shared_lib.Mem.{ok, fault, and_then, pure}
use client_shared_lib.Wire.{atoi}
use client_shared_lib.Config.{chk_cnt, chk_wt, Endpoint}
use client_shared_lib.Config.PeerAddress.{strtok_r-append, strtok_r-free}
use client_shared_lib.Reader.{
  Reader, read_line, read_lines, read_loop, fgets_line, fgets_rest, read_wt, chk_sub_str,
}
use client_shared_lib.Reader.Gateways.{Gateway, IsGateway, AllGateways, endpoints, joined}
use client_shared_lib.Reader.Lines.{gw_line, read_line-endpoints, read_line-overflow}

-- `WT=` and a number of workers
abbrev pub wt_line : CString → CString
wt_line t = (b'W' ∷ b'T' ∷ []) ++ b'=' ∷ t

read_line-workers :
    (garbage : Endpoint) (c : ℕ) (t : CString) (s : Reader)
    → chk_cnt (c ∷ t) b'=' ≡ 0
    → chk_sub_str (wt_line (c ∷ t)) (b'G' ∷ b'W' ∷ []) ≡ false
    → chk_wt (atoi (c ∷ t)) ≡ true
    → read_line garbage (wt_line (c ∷ t)) s
      ≡ ok true (record s { num_worker_threads = atoi (c ∷ t) })
unfolding read_line read_wt chk_cnt
read_line-workers garbage c t s free other small =
    let start = strtok_r-append b'=' b'W' (b'T' ∷ []) (c ∷ t) refl in
    let wt : chk_sub_str (wt_line (c ∷ t)) (b'W' ∷ b'T' ∷ []) ≡ true = unfold chk_sub_str in refl in
    let one : chk_cnt (wt_line (c ∷ t)) b'=' ≡ 1 = ap suc free in
    rw (other, wt, one, start, strtok_r-free b'=' c t free, small) refl

-- A line with its newline, which `fgets` brings in one piece.
pub record IsLine (buf : CString) : Type 0 where
  pub words : CString
  pub ended : buf ≡ words ++ b'\n' ∷ []
  pub one_line : chk_cnt words b'\n' ≡ 0
  pub short : length words < 1023

fgets-line :
    (room : ℕ) (words rest : CString)
    → chk_cnt words b'\n' ≡ 0
    → length words < room
    → (fgets_line room (words ++ b'\n' ∷ rest) ≡ words ++ b'\n' ∷ [])
      × (fgets_rest room (words ++ b'\n' ∷ rest) ≡ rest)
unfolding fgets_line fgets_rest chk_cnt
fgets-line zero words rest one fits = absurd (omega arith)
fgets-line (suc room) [] rest one fits = (refl, refl)
fgets-line (suc room) (c ∷ words) rest one fits = elim (Bool-cases (c == b'\n')) [
  | inl newline ↦ absurd (let n : suc (chk_cnt words b'\n') ≡ 0 = rw newline at one in omega arith)
  | inr other ↦
      let (line, left) = fgets-line room words rest (rw other at one) (omega arith) in
      rw other (ap (λ xs. c ∷ xs) line, left)
]

module _ (garbage : Endpoint) (k : ℕ) (rest : CString) (s : Reader) where
  nonempty-round :
      (words : CString)
      → fgets_line 1023 (words ++ b'\n' ∷ rest) ≡ words ++ b'\n' ∷ []
      → fgets_rest 1023 (words ++ b'\n' ∷ rest) ≡ rest
      → read_loop garbage (suc k) (words ++ b'\n' ∷ rest) s
        ≡ and_then
            (read_line garbage (words ++ b'\n' ∷ []) s)
            (λ good. if good then read_loop garbage k rest else pure false)
  unfolding read_loop
  nonempty-round [] line left = rw (line, left) refl
  nonempty-round (c ∷ words) line left = rw (line, left) refl

  -- A round of the loop is about one line.
  read_loop-round :
      {buf : CString}
      → IsLine buf
      → read_loop garbage (suc k) (buf ++ rest) s
        ≡ and_then
            (read_line garbage buf s)
            (λ good. if good then read_loop garbage k rest else pure false)
  read_loop-round {buf} is =
      let (line, left) = fgets-line 1023 is.words rest is.one_line is.short in
      let split : (is.words ++ b'\n' ∷ []) ++ rest ≡ is.words ++ b'\n' ∷ rest =
        append_assoc is.words (b'\n' ∷ []) rest in
      rw (is.ended, split) (nonempty-round is.words line left)

module _ (g : Gateway) (gs : List Gateway) (garbage : Endpoint) (s : Reader) (is : IsGateway g)
    (all : AllGateways gs) (first : s.i ≡ 0) where
  -- the reader behind the first line
  abbrev read : Reader
  read = record s { num_peers = suc (length gs); peers = endpoints (g ∷ gs); i = suc (length gs) }

  -- the fuel that is left behind two lines, of which `rest` is the second
  abbrev left : CString → ℕ
  left rest = length (b'W' ∷ b'=' ∷ (joined g gs ++ rest))

  -- A file of two lines, each of at most 1023 bytes with its newline, in which GW= is followed by
  -- gateways with commas between them, each an address that chkIP accepts and that fits, a colon
  -- and a port that chkPort accepts, and WT= by a number that chkWT accepts, with neither GW nor
  -- another = in its line, is read: the table holds these gateways in order, each with the port
  -- that atoi reads, and the number of peers and of workers is theirs.
  pub read_lines-config :
      (c : ℕ) (t : CString)
      → chk_cnt (c ∷ t) b'=' ≡ 0
      → chk_sub_str (wt_line (c ∷ t)) (b'G' ∷ b'W' ∷ []) ≡ false
      → chk_wt (atoi (c ∷ t)) ≡ true
      → IsLine (gw_line g gs)
      → IsLine (wt_line (c ∷ t))
      → read_lines garbage (gw_line g gs ++ wt_line (c ∷ t)) s
        ≡ ok true (record {
          num_peers = suc (length gs);
          peers = endpoints (g ∷ gs);
          num_worker_threads = atoi (c ∷ t);
          i = suc (length gs);
        })
  unfolding read_lines read_loop
  read_lines-config c t free other small line line' =
      read_loop-round garbage (suc (left (wt_line (c ∷ t)))) (wt_line (c ∷ t)) s line
      ∙ rw (read_line-endpoints g gs is all garbage s first) (
          rw (append-nil t) at (read_loop-round garbage (left (wt_line (c ∷ t))) [] read line')
          ∙ rw (read_line-workers garbage c t read free other small) refl)

  -- If a file has two lines of gateways, the second is written past the end of its table,
  -- whatever the numbers of gateways and whatever follows.
  pub read_lines-overflow :
      (g' : Gateway) (gs' : List Gateway) (rest : CString)
      → IsGateway g'
      → AllGateways gs'
      → IsLine (gw_line g gs)
      → IsLine (gw_line g' gs')
      → read_lines garbage (gw_line g gs ++ (gw_line g' gs' ++ rest)) s ≡ fault
  unfolding read_lines
  read_lines-overflow g' gs' rest is' all' line line' =
      let more = gw_line g' gs' ++ rest in
      read_loop-round garbage (suc (left more)) more s line
      ∙ rw (read_line-endpoints g gs is all garbage s first) (
          read_loop-round garbage (left more) rest read line'
          ∙ rw (read_line-overflow g' gs' is' all' garbage read (omega arith)) refl)
