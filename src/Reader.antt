-- ===== src/Reader.antt =====
-- The configuration file: the loop over its lines in main of stub/src/stub.c, and chkSubStr of
-- stub/src/utils.c. The file is its bytes, of which no one is NUL, and `fgets` brings at most 1023 of them
-- at a time.
pub mod File
pub mod Gateways
pub mod Lines
use client_shared_lib.Base.{
  ℕ, zero, suc, ◌+◌, Bool, true, false, ◌&&◌, ◌||◌, Option, none, some, List, [], ◌∷◌, ◌==◌, length,
  get_elem?, set, if◌then◌else◌,
}
use client_shared_lib.Base.Int.{ℤ}
use client_shared_lib.Types.{CString}
use client_shared_lib.Mem.{Run, Cmd, ok, fault, out_of_fuel, pure, ◌>>=◌, ◌>>◌}
use client_shared_lib.Wire.{atoi}
use client_shared_lib.Config.{chk_cnt, strtok_r, chk_wt, Endpoint, validate_ip_port}

abbrev pub is_prefix : CString → CString → Bool
is_prefix [] base = true
is_prefix (c ∷ srch) [] = false
is_prefix (c ∷ srch) (d ∷ base) = (c == d) && is_prefix srch base

-- `chkSubStr`
unfoldable pub chk_sub_str : CString → CString → Bool
chk_sub_str [] srch = is_prefix srch []
chk_sub_str (c ∷ base) srch = is_prefix srch (c ∷ base) || chk_sub_str base srch

-- `strtok_r(s, "=,", &s)`
abbrev pub is_delimiter : ℕ → Bool
is_delimiter c = (c == b'=') || (c == b',')

unfoldable pub token_of_two : CString → CString
token_of_two [] = []
token_of_two (c ∷ s) = if is_delimiter c then [] else c ∷ token_of_two s

unfoldable pub behind_two : CString → CString
behind_two [] = []
behind_two (c ∷ s) = if is_delimiter c then s else behind_two s

unfoldable pub strtok_two : CString → Option (CString × CString)
unfolding token_of_two behind_two
strtok_two [] = none
strtok_two (c ∷ s) =
    if is_delimiter c then strtok_two s else some (token_of_two (c ∷ s), behind_two (c ∷ s))

-- `config`, and `i`, which counts the peers of all lines
pub record Reader : Type 0 where
  pub num_peers : ℕ
  pub peers : List Endpoint
  pub num_worker_threads : ℤ
  pub i : ℕ

-- `malloc(n * sizeof(end_peers))`; `garbage` is what the memory holds.
abbrev pub allocated : ℕ → Endpoint → List Endpoint
allocated zero garbage = []
allocated (suc n) garbage = garbage ∷ allocated n garbage

abbrev pub put_peer : Reader → Run Endpoint Bool → Run Reader Bool
put_peer s (ok good p) = ok good (record s { peers = set (s.peers) (s.i) p })
put_peer s fault = fault
put_peer s out_of_fuel = out_of_fuel

-- `validateIpPort(token1, &config->peers[i])`: a write past the table is a fault.
abbrev pub peer_at : CString → Option Endpoint → Cmd Reader Bool
peer_at token1 none s = fault
peer_at token1 (some p) s = put_peer s (validate_ip_port token1 p)

unfoldable pub read_peer : CString → Cmd Reader Bool
read_peer token1 s = peer_at token1 (get_elem? s.peers s.i) s

-- The loop over the gateways of a line; false: `invalid` has ended the program. Each round uses up
-- at least a byte.
unfoldable pub gw_loop : ℕ → Option (CString × CString) → Cmd Reader Bool
unfolding read_peer
gw_loop zero next = λ _. out_of_fuel
gw_loop (suc k) none = pure true
gw_loop (suc k) (some (token1, end_str)) =
    if chk_cnt token1 b':' == 1
    then (do
      good ← read_peer token1
      if good
          then (do (λ s. ok tt (record s { i = s.i + 1 })); gw_loop k (strtok_r b',' end_str))
          else pure false)
    else pure false

-- What is left behind a first token; without a token nothing is left.
abbrev pub rest_of : Option (CString × CString) → CString
rest_of none = []
rest_of (some (token1, end_str)) = end_str

unfoldable pub read_gw : Endpoint → CString → Cmd Reader Bool
unfolding gw_loop strtok_two
read_gw garbage buf = do
  (λ s. ok tt (record s {
    num_peers = chk_cnt buf b',' + 1;
    peers = allocated (chk_cnt buf b',' + 1) garbage;
  }))
  if chk_cnt buf b'=' == 1
      then gw_loop (length buf + 2) (strtok_two (rest_of (strtok_r b'=' buf)))
      else pure false

-- `atoi(token1)`, a read through NULL where there is nothing behind the `=`
abbrev pub workers_of : Option (CString × CString) → Cmd Reader Bool
workers_of none s = fault
workers_of (some (token1, end_str)) s =
    if chk_wt (atoi token1)
    then ok true (record s { num_worker_threads = atoi token1 })
    else ok false s

unfoldable pub read_wt : CString → Cmd Reader Bool
read_wt buf =
    if chk_cnt buf b'=' == 1
    then workers_of (strtok_r b'=' (rest_of (strtok_r b'=' buf)))
    else pure false

-- a round of the loop over the lines
unfoldable pub read_line : Endpoint → CString → Cmd Reader Bool
unfolding read_gw read_wt
read_line garbage buf =
    if chk_sub_str buf (b'G' ∷ b'W' ∷ [])
    then read_gw garbage buf
    else (if chk_sub_str buf (b'W' ∷ b'T' ∷ []) then read_wt buf else pure true)

-- The bytes that `fgets` brings: at most `room`, up to a newline, which is one of them.
unfoldable pub fgets_line : (room : ℕ) → CString → CString
fgets_line zero file = []
fgets_line (suc room) [] = []
fgets_line (suc room) (c ∷ file) = if c == b'\n' then c ∷ [] else c ∷ fgets_line room file

-- what it leaves of the file
unfoldable pub fgets_rest : (room : ℕ) → CString → CString
fgets_rest zero file = file
fgets_rest (suc room) [] = []
fgets_rest (suc room) (c ∷ file) = if c == b'\n' then file else fgets_rest room file

-- `fgets(buf, 1024, fptr)` leaves room for 1023 bytes. Each round uses up at least a byte.
unfoldable pub read_loop : Endpoint → ℕ → (file : CString) → Cmd Reader Bool
unfolding read_line fgets_line fgets_rest
read_loop garbage zero file = λ _. out_of_fuel
read_loop garbage (suc k) [] = pure true
read_loop garbage (suc k) (c ∷ file) = do
  good ← read_line garbage (fgets_line 1023 (c ∷ file))
  if good then read_loop garbage k (fgets_rest 1023 (c ∷ file)) else pure false

-- The loop over the lines; false: `invalid` has ended the program.
unfoldable pub read_lines : Endpoint → (file : CString) → Cmd Reader Bool
unfolding read_loop
read_lines garbage file = read_loop garbage (suc (length file)) file
