-- ===== src/Tests/Config.antt =====
-- Addresses.
use client_shared_lib.Wire.{to_int}
use client_shared_lib.Base.{◌≡◌, refl, true, ◌&&◌, some, [], ◌∷◌, ◌++◌, ◌==◌, length}
use client_shared_lib.Types.{CString}
use client_shared_lib.Base.{ℕ, zero, suc, ◌++◌}
use client_shared_lib.Base.Int.{pos}
use client_shared_lib.Mem.{fault}
use client_shared_lib.Config.{chk_ip, Endpoint, strtok_r, validate_ip_port}
use client_shared_lib.Config.Ip.{fields, nonempty, all_numbers, chk_ip-fields}

-- 10..0.0.1
abbrev address : CString
address = b'1' ∷ b'0' ∷ b'.' ∷ b'.' ∷ b'0' ∷ b'.' ∷ b'0' ∷ b'.' ∷ b'1' ∷ []

abbrev blank : Endpoint
blank = record { ip = []; port = pos 0 }

abbrev zeros : ℕ → CString
zeros zero = []
zeros (suc n) = b'0' ∷ zeros n

chk_ip-fields_example :
    chk_ip (some address)
    ≡ (all_numbers (nonempty (fields address)) && (length (nonempty (fields address)) == 4))
chk_ip-fields_example = chk_ip-fields address

address-accepted : chk_ip (some address) ≡ true
unfolding chk_ip to_int
address-accepted = refl

-- 4294967296.0.0.1: the first number is 2 ^ 32.
wrapped-accepted :
    chk_ip (
      some (
        (b'4' ∷ b'2' ∷ b'9' ∷ b'4' ∷ b'9' ∷ b'6' ∷ b'7' ∷ b'2' ∷ b'9' ∷ b'6' ∷ b'.' ∷ [])
        ++ b'0' ∷ b'.' ∷ b'0' ∷ b'.' ∷ b'1' ∷ []))
    ≡ true
unfolding chk_ip to_int
wrapped-accepted = refl

-- 16 digits are copied before they are checked.
long_address-faults : validate_ip_port (zeros 16 ++ b':' ∷ b'7' ∷ []) blank ≡ fault
unfolding validate_ip_port strtok_r
long_address-faults = refl
