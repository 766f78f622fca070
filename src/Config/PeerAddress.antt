-- ===== src/Config/PeerAddress.antt =====
-- `validateIpPort` reads an address and a port back.
use client_shared_lib.Base.{
  ℕ, ◌≡◌, refl, true, false, some, [], ◌∷◌, ◌++◌, arith, ◌==◌, Bool-cases, inl, inr,
}
use client_shared_lib.Types.{CString}
use client_shared_lib.Mem.{ok}
use client_shared_lib.Wire.{atoi}
use client_shared_lib.Config.{
  chk_cnt, token, behind, strtok_r, chk_ip, chk_port, fits_ip, Endpoint, validate_ip_port,
}

token-append : (d : ℕ) (s r : CString) → chk_cnt s d ≡ 0 → token d (s ++ d ∷ r) ≡ s
unfolding token chk_cnt
token-append d [] r free = ground arith
token-append d (c ∷ s) r free = ground (arith, token-append d s r)

behind-append : (d : ℕ) (s r : CString) → chk_cnt s d ≡ 0 → behind d (s ++ d ∷ r) ≡ r
unfolding behind chk_cnt
behind-append d [] r free = ground arith
behind-append d (c ∷ s) r free = ground (arith, behind-append d s r)

token-free : (d : ℕ) (s : CString) → chk_cnt s d ≡ 0 → token d s ≡ s
unfolding token chk_cnt
token-free d [] free = refl
token-free d (c ∷ s) free = ground (arith, token-free d s)

behind-free : (d : ℕ) (s : CString) → chk_cnt s d ≡ 0 → behind d s ≡ []
unfolding behind chk_cnt
behind-free d [] free = refl
behind-free d (c ∷ s) free = ground (arith, behind-free d s)

pub first-differs :
    (d c : ℕ) (s : CString) → chk_cnt (c ∷ s) d ≡ 0 → ((c == d) ≡ false) × (chk_cnt s d ≡ 0)
unfolding chk_cnt
first-differs d c s free = elim (Bool-cases (c == d)) [
  | inl same ↦ absurd (ground (arith, free, same))
  | inr other ↦ (other, ground (arith, free, other))
]

-- a token that ends at a delimiter
pub strtok_r-append :
    (d c : ℕ) (s r : CString)
    → chk_cnt (c ∷ s) d ≡ 0
    → strtok_r d ((c ∷ s) ++ d ∷ r) ≡ some (c ∷ s, r)
unfolding strtok_r
strtok_r-append d c s r free =
    rw (token-append d (c ∷ s) r free, behind-append d (c ∷ s) r free, (first-differs d c s free).0)

-- the last token
pub strtok_r-free :
    (d c : ℕ) (s : CString) → chk_cnt (c ∷ s) d ≡ 0 → strtok_r d (c ∷ s) ≡ some (c ∷ s, [])
unfolding strtok_r
strtok_r-free d c s free =
    let (other, rest) = first-differs d c s free in
    rw (other, token-free d s rest, behind-free d s rest)

-- An address of at most 15 bytes that chkIP accepts, a colon, and a nonempty port without a colon
-- are taken apart by validateIpPort: both are stored, the port as atoi reads it, and the result
-- is what chkPort says.
pub validate_ip_port-endpoint :
    (c q : ℕ) (ip port : CString) (p : Endpoint)
    → chk_cnt (c ∷ ip) b':' ≡ 0
    → fits_ip (c ∷ ip) ≡ true
    → chk_ip (some (c ∷ ip)) ≡ true
    → chk_cnt (q ∷ port) b':' ≡ 0
    → validate_ip_port ((c ∷ ip) ++ b':' ∷ (q ∷ port)) p
      ≡ ok (chk_port (atoi (q ∷ port))) (record { ip = c ∷ ip; port = atoi (q ∷ port) })
unfolding validate_ip_port
validate_ip_port-endpoint c q ip port p free fits good free' =
    rw (strtok_r-append b':' c ip (q ∷ port) free, fits, good, strtok_r-free b':' q port free')
