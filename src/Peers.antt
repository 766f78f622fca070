-- ===== src/Peers.antt =====
-- The choice of a connection for a new transaction: the round robin over `gconn_list` in
-- `add_entry_idq` of mod_tcpclient/src/task.c, with the counter `glast_con_rr`.
pub mod RoundRobin
pub mod Fair
use client_shared_lib.Base.{
  ℕ, zero, suc, ◌+◌, ◌%◌, List, Option, none, some, get_elem?, ◌==◌, if◌then◌else◌,
}
use client_shared_lib.Mem.{Cmd, ok, fault, out_of_fuel}
use client_shared_lib.Types.{Con, Globals}

-- `get_peers` of module.c
abbrev pub get_peers : Globals → ℕ
get_peers g = g.num_peers

-- `glast_con_rr++; if (glast_con_rr == num_peers) glast_con_rr = 0;`
unfoldable pub bump : ℕ → ℕ → ℕ
bump num_peers rr = if (rr + 1) == num_peers then 0 else rr + 1

-- `reassign_conn:` with fuel. A connection is taken if its state is 1. The table
-- stays as it is while the loop runs: a thread that brings a connection up meanwhile is left out.
unfoldable pub reassign_conn : ℕ → List Con → ℕ → Cmd ℕ ℕ
unfolding bump
reassign_conn zero conns num_peers rr = out_of_fuel
reassign_conn (suc k) conns num_peers rr =
    if num_peers == 0 then fault else elim (get_elem? conns (rr % num_peers)) [
      | none ↦ fault
      | some c ↦
          if c.state == 1
          then ok (rr % num_peers) (bump num_peers rr)
          else (let rest = reassign_conn k conns num_peers (bump num_peers rr) in rest)
    ]
