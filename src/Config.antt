-- ===== src/Config.antt =====
-- The checks of a configuration in stub/src/utils.c, and validateIpPort of stub/src/stub.c.
-- `strtok_r`, `isdigit` and `atoi` are C's.
pub mod PeerAddress
pub mod Ip
use client_shared_lib.Base.{
  ℕ, zero, suc, ◌+◌, Bool, true, false, ◌&&◌, Option, none, some, List, [], ◌∷◌, ◌==◌, leb, length,
  if◌then◌else◌,
}
use client_shared_lib.Base.Int.{ℤ, pos, negsuc}
use client_shared_lib.Types.{CString}
use client_shared_lib.Mem.{Cmd, ok, fault}
use client_shared_lib.Wire.{is_digit, atoi}

-- how often `ch` occurs
unfoldable pub chk_cnt : CString → ℕ → ℕ
chk_cnt [] ch = 0
chk_cnt (c ∷ base) ch = if c == ch then suc (chk_cnt base ch) else chk_cnt base ch

unfoldable pub validate_number : CString → Bool
validate_number [] = true
validate_number (c ∷ str) = if is_digit c then validate_number str else false

-- the bytes up to the next delimiter, and those behind it
unfoldable pub token : ℕ → CString → CString
token d [] = []
token d (c ∷ s) = if c == d then [] else c ∷ token d s

unfoldable pub behind : ℕ → CString → CString
behind d [] = []
behind d (c ∷ s) = if c == d then s else behind d s

-- `strtok_r(s, "d", &s)`: delimiters in front of a token are passed over. The token and the new `s`.
unfoldable pub strtok_r : ℕ → CString → Option (CString × CString)
unfolding token behind
strtok_r d [] = none
strtok_r d (c ∷ s) = if c == d then strtok_r d s else some (token d (c ∷ s), behind d (c ∷ s))

-- `num >= 0 && num <= 255`
abbrev pub is_octet : ℤ → Bool
is_octet (pos n) = leb n 255
is_octet (negsuc n) = false

-- The `while` loop on `ptr`; true is 1. Each round uses up at least a byte.
unfoldable pub ip_loop : ℕ → Option (CString × CString) → ℕ → Bool
unfolding strtok_r validate_number
ip_loop zero next dots = false
ip_loop (suc k) none dots = dots == 3
ip_loop (suc k) (some (ptr, endstr)) dots =
    if validate_number ptr
    then (if is_octet (atoi ptr)
        then elim (strtok_r b'.' endstr) [
          | none ↦ ip_loop k none dots
          | some next ↦ ip_loop k (some next) (dots + 1)
        ]
        else false)
    else false

-- The first token is there, or the result is 0.
abbrev pub ip_from : ℕ → Option (CString × CString) → Bool
ip_from k none = false
ip_from k (some next) = ip_loop k (some next) 0

-- `none` stands for NULL.
unfoldable pub chk_ip : Option CString → Bool
unfolding ip_loop strtok_r
chk_ip none = false
chk_ip (some ip) = ip_from (length ip + 2) (strtok_r b'.' ip)

abbrev pub chk_port : ℤ → Bool
chk_port (pos n) = leb n 65535
chk_port (negsuc n) = false

abbrev pub chk_wt : ℤ → Bool
chk_wt (pos n) = leb n 32
chk_wt (negsuc n) = false

-- `end_peers`, with the port that was read
pub record Endpoint : Type 0 where
  pub ip : CString
  pub port : ℤ

-- `char ip[16]`
abbrev pub fits_ip : CString → Bool
fits_ip tok = leb (length tok) 15

abbrev pub read_port : CString → Option (CString × CString) → Cmd Endpoint Bool
read_port ip none p = fault
read_port ip (some (tok, endstr)) p = ok (chk_port (atoi tok)) (record { ip = ip; port = atoi tok })

-- The address is copied before it is checked. `chkIP` cuts up `endpt`, but not what follows.
abbrev pub read_ip : Option (CString × CString) → Cmd Endpoint Bool
read_ip none p = fault
read_ip (some (tok, endstr)) p =
    if fits_ip tok
    then (if chk_ip (some tok)
        then read_port tok (strtok_r b':' endstr) p
        else ok false (record p { ip = tok }))
    else fault

unfoldable pub validate_ip_port : CString → Cmd Endpoint Bool
validate_ip_port endpt = read_ip (strtok_r b':' endpt)
