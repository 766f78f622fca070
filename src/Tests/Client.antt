-- ===== src/Tests/Client.antt =====
-- A client whose buffers are lists, and whose peer has gone away.
use client_shared_lib.Base.{ℕ, ◌≡◌, refl, List, [], ◌∷◌, ◌++◌, length, take, drop}
use client_shared_lib.Base.Int.{pos, negsuc}
use client_shared_lib.Mem.{ok}
use client_shared_lib.Mem.Returns.{Returns}
use client_shared_lib.Client.{
  Client, client, freed, closes, frees_base, frees_buffer, Evbuffers, Buffers, job_function,
}
use client_shared_lib.Client.Frees.{closings, job_function-held}
use client_shared_lib.Client.Reads.{IsEvbuffers}

abbrev lists : Evbuffers (List ℕ)
lists = record {
  size = λ b. length b;
  remove = λ b n. (take n b, drop n b);
  add = λ b ds. b ++ ds;
  write_buffer = λ b. (negsuc 0, []);
}

abbrev list_laws : IsEvbuffers lists
list_laws = record {
  bytes = λ b. b;
  size_lem = λ b. refl;
  taken = λ b n. refl;
  left = λ b n. refl;
  added = λ b ds. refl;
}

abbrev some_client : Client
some_client = record { fd = pos 5; evbase = 90; buf_ev = 0; output_buffer = 92 }

abbrev buffers : Buffers (List ℕ)
buffers = record { input = 1 ∷ 2 ∷ []; output = 3 ∷ [] }

job_function-held_example :
    job_function (closings 2) (record { ptr = client some_client; releases = [] })
    ≡ ok tt
        (record { ptr = freed; releases = closes (pos 5) ∷ frees_base 90 ∷ frees_buffer 92 ∷ [] })
job_function-held_example = job_function-held 2 some_client []
