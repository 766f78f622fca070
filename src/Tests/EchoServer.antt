-- ===== src/Tests/EchoServer.antt =====
-- The test server, when a client sends a text.
use client_shared_lib.Base.{◌≡◌, [], ◌∷◌}
use client_shared_lib.Base.Int.{pos}
use client_shared_lib.Mem.{fault}
use client_shared_lib.EchoServer.{Answers, Server, main}
use client_shared_lib.EchoServer.Stuck.{main-stuck}

abbrev answers : Answers
answers = record { sock = pos 3; bound = pos 0; listening = pos 0; conn = pos 4 }

abbrev start : Server
start = record { echo = record { printed = []; written = [] }; calls = [] }

main-stuck_example : main answers ((b'h' ∷ b'i' ∷ []) ∷ []) start ≡ fault
main-stuck_example = main-stuck answers ((b'h' ∷ b'i' ∷ []) ∷ []) start
