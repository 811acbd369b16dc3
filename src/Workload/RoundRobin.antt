-- ===== src/Workload/RoundRobin.antt =====
-- gflib/workload.c: the paths are handed out in turn.
use cache_server.Base.{
  ℕ, ◌+◌, ◌%◌, ◌≤◌, ◌≡◌, refl, false, List, [], ◌==◌, length, get_or, get_elem?-eq-get_or, arith,
}
use cache_server.Text.{Bytes}
use cache_server.Options.{run}
use cache_server.Workload.{workload_get_path}

pub workload_get_path-get_or :
    (paths : List Bytes) (k : ℕ)
    → 1 ≤ length paths
    → workload_get_path (record { paths = paths; counter = k })
      ≡ run (get_or paths (k % length paths) [], record { paths = paths; counter = k + 1 })
unfolding workload_get_path
workload_get_path-get_or paths k some_path =
    let nonzero : (length paths == 0) ≡ false = ground (arith, some_path) in
    rw (nonzero, get_elem?-eq-get_or paths (k % length paths) [] (omega arith)) refl
