-- ===== src/Client/Reads.antt =====
-- `buffered_on_read` moves what has come in to the output, whatever its size.
use client_shared_lib.Base.{ℕ, ◌≡◌, List, ◌++◌, length, take, drop, if◌then◌else◌}
use client_shared_lib.Mem.Returns
use client_shared_lib.Mem.Returns.{Returns}
use client_shared_lib.Client.Frees.{when, closed}
use client_shared_lib.Client.{Client, Clients, client, closes, is_open, Evbuffers, is_zero}

-- What libevent documents of its buffers: their bytes, taken off at the front and added at the end.
pub record IsEvbuffers {B : Type 0} (api : Evbuffers B) : Type 0 where
  pub bytes : B → List ℕ
  pub size_lem : (b : B) → api.size b ≡ length (bytes b)
  pub taken : (b : B) (n : ℕ) → (api.remove b n).0 ≡ take n (bytes b)
  pub left : (b : B) (n : ℕ) → bytes (api.remove b n).1 ≡ drop n (bytes b)
  pub added : (b : B) (ds : List ℕ) → bytes (api.add b ds) ≡ bytes b ++ ds

module _ {B : Type 0} (api : Evbuffers B) (is : IsEvbuffers api) where
  -- the client after the bytes in `b` have been handed to `bufferevent_write_buffer`
  abbrev pub after_write : B → Client → Clients → Clients
  after_write b c s = if is_zero (api.write_buffer b).0 then s else record {
    ptr = client (closed c);
    releases = s.releases ++ when (is_open c.fd) (closes c.fd);
  }
