-- ===== src/Workload.antt =====
-- gflib/workload.c: the paths that the download client asks for. `fscanf("%s")` skips white space
-- and reads a word; `EXIT_FAILURE` is `none`.
pub mod Load
pub mod RoundRobin
pub mod Fuel
mod Examples
use cache_server.Base.{
  ℕ, zero, suc, ◌+◌, ◌%◌, Bool, Option, none, some, List, [], ◌∷◌, ◌++◌, ◌==◌, leb, ltb, length,
  get_elem?, if◌then◌else◌,
}
use cache_server.Text.{Bytes}
use cache_server.Getfile.{word, scan_word}
use cache_server.Options.{Start, exits, fault, run}

-- The size of `gWorkloadPathArray`, and of `temp_buf`.
abbrev pub max_paths : ℕ
max_paths = 100

abbrev pub temp_buf_size : ℕ
temp_buf_size = 256

-- The words of the file behind the `i` paths in the array. A word that fills `temp_buf` leaves no room for
-- its NUL. A round takes a byte at least, so the file's length with one more is enough fuel.
unfoldable pub words_loop : (fuel : ℕ) → Bytes → List Bytes → Start (List Bytes)
unfolding word
words_loop zero file paths = fault
words_loop (suc fuel) file paths = elim (scan_word file) [
  | none ↦ run paths
  | some (temp_buf, rest) ↦
      if leb temp_buf_size (length temp_buf)
      then fault
      else if leb max_paths (length paths)
      then fault
      else words_loop fuel rest (paths ++ temp_buf ∷ [])
]

-- `gWorkloadPathArray` up to `gUniqueWorkloadPaths`, and `counter`.
pub record Workload : Type 0 where
  pub paths : List Bytes
  pub counter : ℕ

-- The file that `fopen` opens, if it does.
unfoldable pub workload_init : Option Bytes → Start (Option Workload)
unfolding words_loop
workload_init none = run none
workload_init (some file) = elim (words_loop (length file + 1) file []) [
  | exits code ↦ exits code
  | fault ↦ fault
  | run paths ↦ run (some (record { paths = paths; counter = 0 }))
]

unfoldable pub workload_num_unique_paths : Workload → ℕ
workload_num_unique_paths w = length w.paths

-- In the mode `WORKLOAD_SEQ`, which is never changed. The remainder by zero faults. `counter` stays below
-- 2^31 in what follows.
unfoldable pub workload_get_path : Workload → Start (Bytes × Workload)
unfolding workload_num_unique_paths
workload_get_path w =
    let n = workload_num_unique_paths w in
    if n == 0 then fault else elim (get_elem? w.paths (w.counter % n)) [
      | none ↦ fault
      | some path ↦ run (path, record w { counter = w.counter + 1 })
    ]
