-- ===== src/Tests/Reader.antt =====
-- A file with two gateways and four workers.
use client_shared_lib.Base.{ℕ, ◌≡◌, refl, true, [], ◌∷◌, ◌++◌, arith}
use client_shared_lib.Base.Int.{pos}
use client_shared_lib.Mem.{ok}
use client_shared_lib.Config.{chk_cnt, chk_ip, Endpoint}
use client_shared_lib.Reader.{Reader, read_lines, chk_sub_str}
use client_shared_lib.Reader.Gateways.{Gateway, IsGateway, joined}
use client_shared_lib.Reader.Lines.{gw_line}
use client_shared_lib.Wire.{to_int}
use client_shared_lib.Reader.File.{wt_line, IsLine, read_lines-config}

-- 10.0.0.1 and 10.0.0.2
abbrev gateway : ℕ → Gateway
gateway d = record {
  c = b'1';
  ip = b'0' ∷ b'.' ∷ b'0' ∷ b'.' ∷ b'0' ∷ b'.' ∷ d ∷ [];
  q = b'7';
  port = b'8' ∷ [];
}

-- the last one of a line has the newline behind its port
abbrev last_gateway : ℕ → Gateway
last_gateway d = record (gateway d) { port = b'8' ∷ b'\n' ∷ [] }

gateway-IsGateway : IsGateway (gateway b'1')
unfolding chk_cnt chk_ip to_int
gateway-IsGateway = record {
  plain_ip = record { no_colon = refl; no_comma = refl; no_equals = refl };
  plain_port = record { no_colon = refl; no_comma = refl; no_equals = refl };
  fits = refl;
  good_ip = refl;
  good_port = refl;
}

last_gateway-IsGateway : IsGateway (last_gateway b'2')
unfolding chk_cnt chk_ip to_int
last_gateway-IsGateway = record {
  plain_ip = record { no_colon = refl; no_comma = refl; no_equals = refl };
  plain_port = record { no_colon = refl; no_comma = refl; no_equals = refl };
  fits = refl;
  good_ip = refl;
  good_port = refl;
}

abbrev garbage : Endpoint
garbage = record { ip = b'?' ∷ []; port = pos 3 }

abbrev reader : Reader
reader = record { num_peers = 5; peers = []; num_worker_threads = pos 6; i = 0 }

gw-IsLine : IsLine (gw_line (gateway b'1') (last_gateway b'2' ∷ []))
unfolding chk_cnt
gw-IsLine = record {
  words =
      (b'G' ∷ b'W' ∷ [])
      ++ b'=' ∷ joined (gateway b'1') (record (gateway b'2') { port = b'8' ∷ [] } ∷ []);
  ended = refl;
  one_line = refl;
  short = omega arith;
}

wt-IsLine : IsLine (wt_line (b'4' ∷ b'\n' ∷ []))
unfolding chk_cnt
wt-IsLine = record {
  words = wt_line (b'4' ∷ []);
  ended = refl;
  one_line = refl;
  short = omega arith;
}

read_lines-config_example :
    read_lines garbage
      (gw_line (gateway b'1') (last_gateway b'2' ∷ []) ++ wt_line (b'4' ∷ b'\n' ∷ []))
      reader
    ≡ ok true (record {
      num_peers = 2;
      peers =
          record { ip = b'1' ∷ b'0' ∷ b'.' ∷ b'0' ∷ b'.' ∷ b'0' ∷ b'.' ∷ b'1' ∷ []; port = pos 78 }
          ∷ record {
            ip = b'1' ∷ b'0' ∷ b'.' ∷ b'0' ∷ b'.' ∷ b'0' ∷ b'.' ∷ b'2' ∷ [];
            port = pos 78;
          }
          ∷ [];
      num_worker_threads = pos 4;
      i = 2;
    })
unfolding chk_cnt chk_sub_str to_int
read_lines-config_example =
    read_lines-config (gateway b'1') (last_gateway b'2' ∷ []) garbage reader gateway-IsGateway
      (last_gateway-IsGateway, tt) refl b'4' (b'\n' ∷ []) refl refl refl gw-IsLine wt-IsLine
