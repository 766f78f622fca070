-- ===== src/Tests/Api.antt =====
-- A request after a function has been registered, and two rounds of the queue manager.
use client_shared_lib.Base.{ℕ, true, List, [], ◌∷◌, ◌==◌, if◌then◌else◌}
use client_shared_lib.Mem.{ok, fault, null}
use client_shared_lib.Mem.Returns.{Returns}
use client_shared_lib.Mem.Seg.{Cells}
use client_shared_lib.Types.{IdEntry, TimeVal}
use client_shared_lib.Api.{Registry, Code}
use client_shared_lib.Tests.Sample.{time, entry_a, entry_b}

-- the function at address 90 leaves a trace in the counter
abbrev code : Code
code = record {
  on_request = λ f t r e g. if f == 90 then ok tt (record g { rr = 1 }) else fault;
  on_response = λ f t p r e g. fault;
}

abbrev registry : Registry
registry = record { reg_req_cb = null; reg_res_cb = null; callback_param = null }

-- Between the rounds the time of the second transaction runs out, at 150.5 seconds.
abbrev clocks : List (ℕ → TimeVal)
clocks = (λ j. time 140) ∷ (λ j. time 151) ∷ []

abbrev expired : Cells IdEntry
expired = (10, entry_a) ∷ (11, record entry_b { is_expired = true }) ∷ []
