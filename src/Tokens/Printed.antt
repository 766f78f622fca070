-- ===== src/Tokens/Printed.antt =====
-- A line of gateways is printed part by part.
use client_shared_lib.Base.{
  ℕ, zero, suc, ◌+◌, ◌<◌, ◌≡◌, refl, List, [], ◌∷◌, ◌++◌, append_assoc, arith, length,
}
use client_shared_lib.Mem.{ok}
use client_shared_lib.Wire.{atoi}
use client_shared_lib.Config.{strtok_r}
use client_shared_lib.Config.PeerAddress.{strtok_r-append, strtok_r-free}
use client_shared_lib.Reader.Gateways.{
  Gateway, IsGateway, AllGateways, text, joined, joined-equals, joined-longer, strtok_r-last,
  strtok_r-joined, strtok_two-comma,
}
use client_shared_lib.Reader.Lines.{gw_line, line-rest}
use client_shared_lib.Tokens.{
  Line, token_line, str_line, ip_line, port_line, ip_port, print_tokens, print_all,
}

-- what is printed for a gateway, and for several
abbrev pub lines : Gateway → List Line
lines g =
    token_line (text g)
    ∷ str_line (text g)
    ∷ ip_line (g.c ∷ g.ip)
    ∷ port_line (atoi (g.q ∷ g.port))
    ∷ []

abbrev pub all_lines : List Gateway → List Line
all_lines [] = []
all_lines (g ∷ gs) = lines g ++ all_lines gs

print_token-lines :
    (g : Gateway) (s : List Line)
    → IsGateway g
    → ip_port (text g) (s ++ token_line (text g) ∷ []) ≡ ok tt (s ++ lines g)
unfolding ip_port
print_token-lines g s is =
    rw
      (
        strtok_r-append b':' g.c g.ip (g.q ∷ g.port) is.plain_ip.no_colon,
        strtok_r-free b':' g.q g.port is.plain_port.no_colon,
        append_assoc s (token_line (text g) ∷ []) (str_line (text g) ∷ []),
        append_assoc s (token_line (text g) ∷ str_line (text g) ∷ []) (ip_line (g.c ∷ g.ip) ∷ []),
        append_assoc s (token_line (text g) ∷ str_line (text g) ∷ ip_line (g.c ∷ g.ip) ∷ [])
            (port_line (atoi (g.q ∷ g.port)) ∷ []),
      )
      refl

print_tokens-joined :
    (k : ℕ) (g : Gateway) (gs : List Gateway) (s : List Line)
    → IsGateway g
    → AllGateways gs
    → suc (length gs) < k
    → print_tokens k (strtok_r b',' (joined g gs)) s ≡ ok tt (s ++ all_lines (g ∷ gs))
unfolding print_tokens strtok_r
print_tokens-joined zero g gs s is all fuel = absurd (omega arith)
print_tokens-joined (suc zero) g gs s is all fuel = absurd (omega arith)
print_tokens-joined (suc (suc k)) g [] s is all fuel =
    rw (strtok_r-last g is, print_token-lines g s is) refl
print_tokens-joined (suc (suc k)) g (g' ∷ gs) s is (is', all) fuel =
    rw
      (
        strtok_r-joined g g' gs is,
        print_token-lines g s is,
        ← append_assoc s (lines g) (all_lines (g' ∷ gs)),
      )
      (print_tokens-joined (suc k) g' gs (s ++ lines g) is' all (omega arith))

-- A line of valid gateways is printed token by token: each with its address and its port.
pub print_all-lines :
    (g : Gateway) (gs : List Gateway) (s : List Line)
    → IsGateway g
    → AllGateways gs
    → print_all (gw_line g gs) s ≡ ok tt (s ++ all_lines (g ∷ gs))
unfolding print_all
print_all-lines g gs s is all =
    rw (line-rest g gs is all, strtok_two-comma (joined g gs) (joined-equals g gs is all))
      (print_tokens-joined (length (gw_line g gs) + 1) g gs s is all
        (omega (arith, joined-longer g gs)))
