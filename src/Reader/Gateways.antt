-- ===== src/Reader/Gateways.antt =====
-- Gateways as a line of the file spells them.
use client_shared_lib.Base.{
  ℕ, suc, ◌+◌, ◌≡◌, refl, true, false, some, List, [], ◌∷◌, ◌++◌, arith, ◌==◌, ◌≤◌, length,
  length-append,
}
use client_shared_lib.Types.{CString}
use client_shared_lib.Wire.{atoi}
use client_shared_lib.Config.{chk_cnt, token, behind, strtok_r, chk_ip, chk_port, fits_ip, Endpoint}
use client_shared_lib.Config.PeerAddress.{strtok_r-append, strtok_r-free, first-differs}
use client_shared_lib.Reader.{token_of_two, behind_two, strtok_two}

-- An address and a port, neither of them empty: their first bytes, and the others.
pub record Gateway : Type 0 where
  pub c : ℕ
  pub ip : CString
  pub q : ℕ
  pub port : CString

abbrev pub text : Gateway → CString
text g = (g.c ∷ g.ip) ++ b':' ∷ (g.q ∷ g.port)

abbrev pub endpoint : Gateway → Endpoint
endpoint g = record { ip = g.c ∷ g.ip; port = atoi (g.q ∷ g.port) }

abbrev pub endpoints : List Gateway → List Endpoint
endpoints [] = []
endpoints (g ∷ gs) = endpoint g ∷ endpoints gs

-- at least one gateway, with commas between them
abbrev pub joined : Gateway → List Gateway → CString
joined g [] = text g
joined g (g' ∷ gs) = text g ++ b',' ∷ joined g' gs

-- `s` has none of the bytes that take a line apart.
pub record IsPlain (s : CString) : Type 0 where
  pub no_colon : chk_cnt s b':' ≡ 0
  pub no_comma : chk_cnt s b',' ≡ 0
  pub no_equals : chk_cnt s b'=' ≡ 0

pub record IsGateway (g : Gateway) : Type 0 where
  pub plain_ip : IsPlain (g.c ∷ g.ip)
  pub plain_port : IsPlain (g.q ∷ g.port)
  pub fits : fits_ip (g.c ∷ g.ip) ≡ true
  pub good_ip : chk_ip (some (g.c ∷ g.ip)) ≡ true
  pub good_port : chk_port (atoi (g.q ∷ g.port)) ≡ true

abbrev pub AllGateways : List Gateway → Type 0
AllGateways [] = Unit {0}
AllGateways (g ∷ gs) = IsGateway g × AllGateways gs

pub chk_cnt-append : (s r : CString) (d : ℕ) → chk_cnt (s ++ r) d ≡ chk_cnt s d + chk_cnt r d
unfolding chk_cnt
chk_cnt-append [] r d = omega arith
chk_cnt-append (c ∷ s) r d = ground (arith, chk_cnt-append s r d)

chk_cnt-miss : (c d : ℕ) (s : CString) → (c == d) ≡ false → chk_cnt (c ∷ s) d ≡ chk_cnt s d
unfolding chk_cnt
chk_cnt-miss c d s other = rw other refl

chk_cnt-hit : (d : ℕ) (s : CString) → chk_cnt (d ∷ s) d ≡ suc (chk_cnt s d)
unfolding chk_cnt
chk_cnt-hit d s = let same : (d == d) ≡ true = ground arith in rw same refl

module _ (g : Gateway) (is : IsGateway g) where
  pub text-colon : chk_cnt (text g) b':' ≡ 1
  text-colon =
      rw (chk_cnt-append (g.c ∷ g.ip) (b':' ∷ (g.q ∷ g.port)) b':', chk_cnt-hit b':' (g.q ∷ g.port))
        (omega (arith, is.plain_ip.no_colon, is.plain_port.no_colon))

  pub text-comma : chk_cnt (text g) b',' ≡ 0
  text-comma =
      rw
        (
          chk_cnt-append (g.c ∷ g.ip) (b':' ∷ (g.q ∷ g.port)) b',',
          chk_cnt-miss b':' b',' (g.q ∷ g.port) refl,
        )
        (omega (arith, is.plain_ip.no_comma, is.plain_port.no_comma))

  pub text-equals : chk_cnt (text g) b'=' ≡ 0
  text-equals =
      rw
        (
          chk_cnt-append (g.c ∷ g.ip) (b':' ∷ (g.q ∷ g.port)) b'=',
          chk_cnt-miss b':' b'=' (g.q ∷ g.port) refl,
        )
        (omega (arith, is.plain_ip.no_equals, is.plain_port.no_equals))

pub joined-comma :
    (g : Gateway) (gs : List Gateway)
    → IsGateway g
    → AllGateways gs
    → chk_cnt (joined g gs) b',' ≡ length gs
joined-comma g [] is all = text-comma g is
joined-comma g (g' ∷ gs) is (is', all) =
    rw (chk_cnt-append (text g) (b',' ∷ joined g' gs) b',', chk_cnt-hit b',' (joined g' gs))
      (omega (arith, text-comma g is, joined-comma g' gs is' all))

pub joined-equals :
    (g : Gateway) (gs : List Gateway)
    → IsGateway g
    → AllGateways gs
    → chk_cnt (joined g gs) b'=' ≡ 0
joined-equals g [] is all = text-equals g is
joined-equals g (g' ∷ gs) is (is', all) =
    rw
      (
        chk_cnt-append (text g) (b',' ∷ joined g' gs) b'=',
        chk_cnt-miss b',' b'=' (joined g' gs) refl,
      )
      (omega (arith, text-equals g is, joined-equals g' gs is' all))

-- a line has more bytes than gateways
pub joined-longer : (g : Gateway) (gs : List Gateway) → suc (length gs) ≤ length (joined g gs)
joined-longer g [] = omega arith
joined-longer g (g' ∷ gs) =
    omega (arith, joined-longer g' gs, length-append (text g) (b',' ∷ joined g' gs))

pub strtok_r-last : (g : Gateway) → IsGateway g → strtok_r b',' (joined g []) ≡ some (text g, [])
strtok_r-last g is = strtok_r-free b',' g.c (g.ip ++ b':' ∷ (g.q ∷ g.port)) (text-comma g is)

pub strtok_r-joined :
    (g g' : Gateway) (gs : List Gateway)
    → IsGateway g
    → strtok_r b',' (joined g (g' ∷ gs)) ≡ some (text g, joined g' gs)
strtok_r-joined g g' gs is =
    strtok_r-append b',' g.c (g.ip ++ b':' ∷ (g.q ∷ g.port)) (joined g' gs) (text-comma g is)

-- without a second `=` both delimiters are as good as the comma
token_of_two-comma : (s : CString) → chk_cnt s b'=' ≡ 0 → token_of_two s ≡ token b',' s
unfolding token_of_two token chk_cnt
token_of_two-comma [] free = refl
token_of_two-comma (c ∷ s) free = ground (arith, token_of_two-comma s)

behind_two-comma : (s : CString) → chk_cnt s b'=' ≡ 0 → behind_two s ≡ behind b',' s
unfolding behind_two behind chk_cnt
behind_two-comma [] free = refl
behind_two-comma (c ∷ s) free = ground (arith, behind_two-comma s)

pub strtok_two-comma : (s : CString) → chk_cnt s b'=' ≡ 0 → strtok_two s ≡ strtok_r b',' s
unfolding strtok_two strtok_r chk_cnt
strtok_two-comma [] free = refl
strtok_two-comma (c ∷ s) free =
    let (other, rest) = first-differs b'=' c s free in
    rw (other, token_of_two-comma s rest, behind_two-comma s rest, strtok_two-comma s rest) refl
