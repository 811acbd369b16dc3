-- ===== src/Workload/Examples.antt =====
-- gflib/workload.c: a workload of two paths.
use cache_server.Base.{◌≡◌, refl, some, List, [], ◌∷◌, leb, length, if◌then◌else◌, arith}
use cache_server.Text.{Bytes, codes}
use cache_server.Options.{fault, run}
use cache_server.Workload.{workload_init, workload_get_path}
use cache_server.Workload.Load.{lines, workload_init-lines}

abbrev two_paths : List Bytes
two_paths = codes "/a" ∷ codes "/b" ∷ []

-- The third path is the first again.
third :
    workload_get_path (record { paths = two_paths; counter = 2 })
    ≡ run (codes "/a", record { paths = two_paths; counter = 3 })
unfolding workload_get_path
third = refl

workload_init-lines_example : workload_init (some (lines two_paths)) ≡ (
    if leb (length two_paths) 100
    then run (some (record { paths = two_paths; counter = 0 }))
    else fault)
workload_init-lines_example = workload_init-lines two_paths (ground arith)
