-- ===== src/Options/Settings.antt =====
-- gflib/gfserver.c: what `gfserver_init` and `gfserver_setopt` put into a `gfserver_t`.
use cache_server.Base.{
  ℕ, zero, suc, ◌+◌, ◌%◌, ◌^◌, Option, none, some, List, [], ◌∷◌, length, ltb, if◌then◌else◌,
}
use cache_server.Text.{Bytes}
use cache_server.Options.{Start, fault, run, then_start}

-- The functions that are installed as handlers.
pub data HandlerFunc : Type 0 where
  cache_handler curl_handler local_handler : HandlerFunc

-- A `void *` argument: `none` for NULL.
abbrev pub Arg : Type 0
Arg = Option Bytes

-- `args` is the array that `malloc` gives; a cell that has not been written is `none`.
pub record Settings : Type 0 where
  pub nthreads : ℕ
  pub args : List (Option Arg)
  pub maxnpending : ℕ
  pub port : ℕ
  pub handler : Option HandlerFunc

abbrev pub replicate {ℓ} : {A : Type ℓ} → ℕ → A → List A
replicate zero a = []
replicate (suc n) a = a ∷ replicate n a

abbrev pub set {ℓ} : {A : Type ℓ} → List A → ℕ → A → List A
set [] i a = []
set (x ∷ xs) zero a = a ∷ xs
set (x ∷ xs) (suc i) a = x ∷ set xs i a

unfoldable pub init_settings : (nthreads : ℕ) → Settings
init_settings nthreads = record {
  nthreads = nthreads;
  args = replicate nthreads none;
  maxnpending = 0;
  port = 0;
  handler = none;
}

-- `GFS_PORT`, `GFS_MAXNPENDING`, `GFS_WORKER_FUNC`, `GFS_WORKER_ARG`, with their arguments.
pub data Setting : Type 0 where
  gfs_port gfs_maxnpending : ℕ → Setting
  gfs_worker_func : HandlerFunc → Setting
  gfs_worker_arg : ℕ → Arg → Setting

unfoldable pub gfserver_setopt : Setting → Settings → Start Settings
gfserver_setopt (gfs_port n) gfs = run (record gfs { port = n % 2 ^ 16 })
gfserver_setopt (gfs_maxnpending n) gfs = run (record gfs { maxnpending = n })
gfserver_setopt (gfs_worker_func f) gfs = run (record gfs { handler = some f })
gfserver_setopt (gfs_worker_arg i a) gfs =
    if ltb i (length gfs.args) then run (record gfs { args = set gfs.args i (some a) }) else fault

-- `for(i = 0; i < nthreads; i++) gfserver_setopt(&gfs, GFS_WORKER_ARG, i, arg)` with `n` rounds left.
unfoldable pub arg_loop : (n i : ℕ) → Arg → Settings → Start Settings
unfolding gfserver_setopt
arg_loop zero i a gfs = run gfs
arg_loop (suc n) i a gfs =
    then_start (gfserver_setopt (gfs_worker_arg i a) gfs) (arg_loop n (i + 1) a)

-- The server that the `main` functions set up before they call `gfserver_serve`.
unfoldable pub set_up : (nthreads port maxnpending : ℕ) → HandlerFunc → Arg → Start Settings
unfolding init_settings gfserver_setopt arg_loop
set_up nthreads port maxnpending func a =
    then_start (gfserver_setopt (gfs_port port) (init_settings nthreads)) λ gfs.
      then_start (gfserver_setopt (gfs_maxnpending maxnpending) gfs)
        λ gfs. then_start (gfserver_setopt (gfs_worker_func func) gfs) (arg_loop nthreads 0 a)
