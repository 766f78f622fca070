-- ===== src/Tests/Pipe.antt =====
-- The request at 12345678 comes through the pipe.
use client_shared_lib.Base.{◌≡◌, refl, ◌==◌, false, Option, none, some, arith, if◌then◌else◌}
use client_shared_lib.Mem.{Ptr, pure, ◌>>◌}
use client_shared_lib.Types.{Request}
use client_shared_lib.MsgQueue.{push_to_msgq}
use client_shared_lib.Pipe.{pipe_args, pipe_round}
use client_shared_lib.Pipe.Addresses.{decimal}
use client_shared_lib.Pipe.Requests.{pipe_round-request}
use client_shared_lib.Tests.Sample.{time, request, globals}

abbrev requests : Ptr → Option Request
requests p = if p == 12345678 then some request else none

pipe_round-request_example :
    pipe_round requests 4 2 23 12 (time 125) (some (decimal 8 12345678)) globals
    ≡ (push_to_msgq 4 2 23 12 (time 125) (pipe_args request) >> pure false) globals
pipe_round-request_example =
    pipe_round-request requests 4 2 23 12 (time 125) globals 12345678 refl (omega arith) refl
