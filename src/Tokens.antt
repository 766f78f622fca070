-- ===== src/Tokens.antt =====
-- The program that tries out the tokeniser: main and ipPort of stub/src/test.cpp. The string is an
-- argument; the source has one fixed string.
pub mod Printed
use client_shared_lib.Base.{ℕ, zero, suc, ◌+◌, Option, none, some, List, [], ◌∷◌, ◌++◌, length}
use client_shared_lib.Base.Int.{ℤ}
use client_shared_lib.Types.{CString}
use client_shared_lib.Mem.{Cmd, ok, fault, out_of_fuel, pure, ◌>>=◌, ◌>>◌}
use client_shared_lib.Wire.{atoi}
use client_shared_lib.Config.{strtok_r}
use client_shared_lib.Reader.{strtok_two, rest_of}

-- what is printed
pub data Line : Type 0 where
  token_line : CString → Line
  str_line : CString → Line
  ip_line : CString → Line
  port_line : ℤ → Line

abbrev pub print_line : Line → Cmd (List Line) (Unit {0})
print_line l s = ok tt (s ++ l ∷ [])

-- The second half of `ipPort`: without a second token, `atoi` reads through NULL.
abbrev pub port_of_rest : Option (CString × CString) → Cmd (List Line) (Unit {0})
port_of_rest none = λ _. fault
port_of_rest (some (tok, rest)) = print_line (port_line (atoi tok))

abbrev pub print_ip : Option (CString × CString) → Cmd (List Line) (Unit {0})
print_ip none = λ _. fault
print_ip (some (tok, rest)) = print_line (ip_line tok) >> port_of_rest (strtok_r b':' rest)

-- `ipPort`
unfoldable pub ip_port : CString → Cmd (List Line) (Unit {0})
ip_port str = print_line (str_line str) >> print_ip (strtok_r b':' str)

-- The loop over the tokens; each round uses up at least a byte.
unfoldable pub print_tokens : ℕ → Option (CString × CString) → Cmd (List Line) (Unit {0})
unfolding ip_port
print_tokens zero pch = λ _. out_of_fuel
print_tokens (suc k) none = pure tt
print_tokens (suc k) (some (pch, qch)) = do
  print_line (token_line pch)
  ip_port pch
  print_tokens k (strtok_r b',' qch)

unfoldable pub print_all : CString → Cmd (List Line) (Unit {0})
unfolding print_tokens strtok_two
print_all str = print_tokens (length str + 1) (strtok_two (rest_of (strtok_r b'=' str)))
