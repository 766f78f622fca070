-- ===== src/Api/Registered.antt =====
-- A request reaches the function that was registered last; without one it is a call through NULL.
use client_shared_lib.Mem.Returns.{Returns}
