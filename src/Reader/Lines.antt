-- ===== src/Reader/Lines.antt =====
-- A line of gateways is read back, and a second one is written past the table.
use client_shared_lib.Base.{
  ℕ, zero, suc, ◌+◌, ◌<◌, ◌≡◌, refl, ap, true, none, some, List, [], ◌∷◌, ◌++◌, append_assoc, arith,
  length, length-append, get_elem?, set, get_elem?-append, get_elem?-lt, length-set, set-append,
  Option-cases, inl, inr,
}
use client_shared_lib.Types.{CString}
use client_shared_lib.Mem.{ok, fault}
use client_shared_lib.Config.{chk_cnt, strtok_r, Endpoint}
use client_shared_lib.Config.PeerAddress.{strtok_r-append, validate_ip_port-endpoint}
use client_shared_lib.Reader.{
  Reader, allocated, read_peer, gw_loop, read_gw, read_line, chk_sub_str, rest_of,
}
use client_shared_lib.Reader.Gateways.{
  Gateway, IsGateway, AllGateways, text, endpoint, endpoints, joined, text-colon, joined-comma,
  joined-equals, joined-longer, strtok_r-last, strtok_r-joined, strtok_two-comma,
}

-- `GW=` and the gateways
abbrev pub gw_line : Gateway → List Gateway → CString
gw_line g gs = (b'G' ∷ b'W' ∷ []) ++ b'=' ∷ joined g gs

-- the reader with some of its peers read
abbrev pub filled : Reader → List Endpoint → ℕ → Reader
filled s peers i = record s { peers = peers; i = i }

read_peer-endpoint :
    (g : Gateway) (s : Reader) (done rest : List Endpoint) (p : Endpoint)
    → IsGateway g
    → read_peer (text g) (filled s (done ++ p ∷ rest) (length done))
      ≡ ok true (filled s (done ++ endpoint g ∷ rest) (length done))
unfolding read_peer
read_peer-endpoint g s done rest p is =
    rw
      (
        get_elem?-append done p rest,
        validate_ip_port-endpoint g.c g.q g.ip g.port p is.plain_ip.no_colon is.fits is.good_ip
            is.plain_port.no_colon,
        is.good_port,
        set-append done p (endpoint g) rest,
      )
      refl

gw_loop-endpoints :
    (k : ℕ) (g : Gateway) (gs : List Gateway) (s : Reader) (done : List Endpoint)
    (garbage : Endpoint)
    → IsGateway g
    → AllGateways gs
    → suc (length gs) < k
    → gw_loop k
        (strtok_r b',' (joined g gs))
        (filled s (done ++ allocated (suc (length gs)) garbage) (length done))
      ≡ ok true (filled s (done ++ endpoints (g ∷ gs)) (length done + suc (length gs)))
unfolding gw_loop strtok_r
gw_loop-endpoints zero g gs s done garbage is all fuel = absurd (omega arith)
gw_loop-endpoints (suc zero) g gs s done garbage is all fuel = absurd (omega arith)
gw_loop-endpoints (suc (suc k)) g [] s done garbage is all fuel =
    rw (strtok_r-last g is, text-colon g is, read_peer-endpoint g s done [] garbage is) refl
gw_loop-endpoints (suc (suc k)) g (g' ∷ gs) s done garbage is (is', all) fuel =
    rw
      (
        strtok_r-joined g g' gs is,
        text-colon g is,
        read_peer-endpoint g s done (allocated (suc (length gs)) garbage) garbage is,
      )
      (rw
        (
          append_assoc done (endpoint g ∷ []) (allocated (suc (length gs)) garbage),
          append_assoc done (endpoint g ∷ []) (endpoints (g' ∷ gs)),
          length-append done (endpoint g ∷ []),
          sum,
        )
        at
        (gw_loop-endpoints (suc k) g' gs s (done ++ endpoint g ∷ []) garbage is' all (omega arith)))
  where
    sum : length done + 1 + suc (length gs) ≡ length done + suc (suc (length gs))
    sum = omega arith

length-allocated : (n : ℕ) (garbage : Endpoint) → length (allocated n garbage) ≡ n
length-allocated zero garbage = refl
length-allocated (suc n) garbage = ap suc (length-allocated n garbage)

-- the first gateway of a line has no place in the table
first_faults :
    (k : ℕ) (g : Gateway) (gs : List Gateway) (s : Reader)
    → IsGateway g
    → get_elem? s.peers s.i ≡ none
    → gw_loop (suc k) (strtok_r b',' (joined g gs)) s ≡ fault
unfolding gw_loop read_peer
first_faults k g [] s is out = rw (strtok_r-last g is, text-colon g is, out) refl
first_faults k g (g' ∷ gs) s is out = rw (strtok_r-joined g g' gs is, text-colon g is, out) refl

read_peer-some :
    (g : Gateway) (s : Reader) {p : Endpoint}
    → IsGateway g
    → get_elem? s.peers s.i ≡ some p
    → read_peer (text g) s ≡ ok true (record s { peers = set (s.peers) (s.i) (endpoint g) })
unfolding read_peer
read_peer-some g s {p} is there =
    rw
      (
        there,
        validate_ip_port-endpoint g.c g.q g.ip g.port p is.plain_ip.no_colon is.fits is.good_ip
            is.plain_port.no_colon,
        is.good_port,
      )
      refl

-- more gateways are to come than there are places left
too_many-fault :
    (k : ℕ) (g : Gateway) (gs : List Gateway) (s : Reader)
    → IsGateway g
    → AllGateways gs
    → length s.peers < s.i + suc (length gs)
    → suc (length gs) < k
    → gw_loop k (strtok_r b',' (joined g gs)) s ≡ fault
unfolding gw_loop
too_many-fault zero g gs s is all full fuel = absurd (omega arith)
too_many-fault (suc k) g [] s is all full fuel = elim (Option-cases (get_elem? s.peers s.i)) [
  | inl out ↦ first_faults k g [] s is out
  | inr (p, there) ↦ let h = get_elem?-lt (s.peers) (s.i) there in absurd (omega arith)
]
too_many-fault (suc k) g (g' ∷ gs) s is (is', all) full fuel =
    elim (Option-cases (get_elem? s.peers s.i)) [
      | inl out ↦ first_faults k g (g' ∷ gs) s is out
      | inr (p, there) ↦
          rw (strtok_r-joined g g' gs is, text-colon g is, read_peer-some g s is there)
            (too_many-fault k g' gs
              (record s { peers = set (s.peers) (s.i) (endpoint g); i = s.i + 1 }) is' all
              (omega (arith, full, length-set (s.peers) (s.i) (endpoint g))) (omega arith))
    ]

module _ (g : Gateway) (gs : List Gateway) (is : IsGateway g) (all : AllGateways gs) where
  line-comma : chk_cnt (gw_line g gs) b',' ≡ length gs
  unfolding chk_cnt
  line-comma = joined-comma g gs is all

  line-equals : chk_cnt (gw_line g gs) b'=' ≡ 1
  unfolding chk_cnt
  line-equals = ap suc (joined-equals g gs is all)

  pub line-rest : rest_of (strtok_r b'=' (gw_line g gs)) ≡ joined g gs
  unfolding chk_cnt
  line-rest = ap rest_of (strtok_r-append b'=' b'G' (b'W' ∷ []) (joined g gs) refl)

  -- A line of gateways is read back, if it is the first one.
  pub read_line-endpoints :
      (garbage : Endpoint) (s : Reader)
      → s.i ≡ 0
      → read_line garbage (gw_line g gs) s
        ≡ ok true (record s {
          num_peers = suc (length gs);
          peers = endpoints (g ∷ gs);
          i = suc (length gs);
        })
  unfolding read_line read_gw chk_sub_str
  read_line-endpoints garbage s first =
      let size : length gs + 1 ≡ suc (length gs) = omega arith in
      let none_done : 0 + suc (length gs) ≡ suc (length gs) = omega arith in
      rw
        (
          line-comma,
          line-equals,
          line-rest,
          strtok_two-comma (joined g gs) (joined-equals g gs is all),
          size,
          first,
        )
        (rw none_done at (
          gw_loop-endpoints (length (gw_line g gs) + 2) g gs
            (record s { num_peers = suc (length gs) }) [] garbage is all
            (omega (arith, joined-longer g gs))))

  -- A line of gateways after another one does not fit.
  pub read_line-overflow :
      (garbage : Endpoint) (s : Reader) → 0 < s.i → read_line garbage (gw_line g gs) s ≡ fault
  unfolding read_line read_gw chk_sub_str
  read_line-overflow garbage s later =
      let size : length gs + 1 ≡ suc (length gs) = omega arith in
      rw
        (
          line-comma,
          line-equals,
          line-rest,
          strtok_two-comma (joined g gs) (joined-equals g gs is all),
          size,
        )
        (too_many-fault (length (gw_line g gs) + 2) g gs
          (record s { num_peers = suc (length gs); peers = allocated (suc (length gs)) garbage }) is
          all (omega (arith, length-allocated (suc (length gs)) garbage, later))
          (omega (arith, joined-longer g gs)))
