-- ===== src/Options/Tools.antt =====
-- gflib/gfserver_main.c, cache/simplecached.c and gflib/gfclient_download.c: the options of the file
-- server, the cache process and the download client.
use cache_server.Base.{ℕ, zero, suc, ◌^◌, Bool, ◌||◌, Option, none, List, ◌==◌, if◌then◌else◌}
use cache_server.Base.Int.{ℤ, pos, negsuc, ltb_ℤ, is_nonpos}
use cache_server.Text.{Bytes, codes}
use cache_server.Options.{
  Start, exits, run, then_start, to_unsigned, atoi, Answer, getopt_loop, catch_signals,
}
use cache_server.Table.{
  Item, Run, ok, out_of_fuel, simplecache_init, content_init, cache_failure, exit_failure,
}
use cache_server.Pool.{getmsqid}
use cache_server.Options.Settings.{Settings, set_up, local_handler}

-- The variables of the `main` of gflib/gfserver_main.c.
pub record FileServer : Type 0 where
  pub port : ℕ
  pub content_map : Bytes
  pub nthreads : ℤ

abbrev pub gfserver_defaults : FileServer
gfserver_defaults = record { port = 8803; content_map = codes "content.txt"; nthreads = pos 3 }

unfoldable pub gfserver_option : ℕ → Bytes → FileServer → Start FileServer
unfolding to_unsigned atoi
gfserver_option c optarg o =
    if c == b'p'
    then run (record o { port = to_unsigned (2 ^ 16) (atoi optarg) })
    else if c == b't'
    then run (record o { nthreads = atoi optarg })
    else if c == b'h'
    then exits (pos 0)
    else if c == b'm'
    then run (record o { content_map = optarg })
    else exits (pos 1)

-- `if(nthreads < 1) nthreads = 1`
unfoldable pub at_least_one : ℤ → ℕ
at_least_one (pos zero) = 1
at_least_one (pos (suc n)) = suc n
at_least_one (negsuc _) = 1

-- What the loading of a table rests on: the answers of open(2), `qsort`, and the list files that `fopen` finds.
pub record Disk : Type 0 where
  pub open_fd : ℕ → Option Bytes → Option ℕ
  pub qsort : List Item → List Item
  pub fopen : Bytes → Option Bytes

abbrev pub table_start : Run (List Item) → Start (List Item)
table_start (ok table) = run table
table_start Run.fault = Start.fault
table_start (Run.exits code) = exits code
table_start out_of_fuel = Start.fault

-- The table of `content_init`, and the server that is to serve.
unfoldable pub gfserver_main : Disk → Bool × Bool → List Answer → Start (List Item × Settings)
unfolding gfserver_option getopt_loop catch_signals at_least_one set_up
gfserver_main disk signals options = catch_signals signals exit_failure (
    then_start (getopt_loop gfserver_option options gfserver_defaults) λ o.
      then_start (table_start (content_init disk.open_fd disk.qsort (disk.fopen o.content_map)))
        λ table.
          then_start (set_up (at_least_one o.nthreads) o.port 12 local_handler none)
            λ gfs. run (table, gfs))

-- The variables of the `main` of cache/simplecached.c.
pub record CacheProcess : Type 0 where
  pub nthreads : ℤ
  pub cachedir : Bytes

abbrev pub simplecached_defaults : CacheProcess
simplecached_defaults = record { nthreads = pos 2; cachedir = codes "locals.txt" }

unfoldable pub simplecached_option : ℕ → Bytes → CacheProcess → Start CacheProcess
unfolding atoi
simplecached_option c optarg o =
    if c == b'c'
    then run (record o { cachedir = optarg })
    else if c == b'h'
    then exits (pos 0)
    else if c == b't'
    then run (record o { nthreads = atoi optarg })
    else if c == b'i'
    then run o
    else exits (pos 1)

-- The table, `msqid`, and the argument of `spawn`.
pub record Cache : Type 0 where
  pub table : List Item
  pub msqid : ℕ
  pub nthreads : ℤ

unfoldable pub cache_start :
    Disk → (ftok : Option ℕ) (msgget : ℕ → Option ℕ) → CacheProcess → Start Cache
unfolding getmsqid
cache_start disk ftok msgget o =
    then_start (table_start (simplecache_init disk.open_fd disk.qsort (disk.fopen o.cachedir)))
      λ table.
        then_start (getmsqid ftok msgget)
          λ msqid. run (record { table = table; msqid = msqid; nthreads = o.nthreads })

-- The signals are set after the test.
unfoldable pub simplecached_main :
    Disk → (ftok : Option ℕ) (msgget : ℕ → Option ℕ) → Bool × Bool → List Answer → Start Cache
unfolding simplecached_option getopt_loop catch_signals cache_start
simplecached_main disk ftok msgget signals options =
    then_start (getopt_loop simplecached_option options simplecached_defaults) λ o.
      if ltb_ℤ 8803 o.nthreads || is_nonpos o.nthreads
      then exits (pos 175)
      else catch_signals signals cache_failure (cache_start disk ftok msgget o)

-- The variables of the `main` of gflib/gfclient_download.c.
pub record DownloadClient : Type 0 where
  pub server : Bytes
  pub port : ℕ
  pub workload_path : Bytes
  pub nrequests : ℤ
  pub nthreads : ℤ

abbrev pub download_defaults : DownloadClient
download_defaults = record {
  server = codes "localhost";
  port = 8803;
  workload_path = codes "workload.txt";
  nrequests = pos 2;
  nthreads = pos 2;
}

unfoldable pub download_option : ℕ → Bytes → DownloadClient → Start DownloadClient
unfolding to_unsigned atoi
download_option c optarg o =
    if c == b'h'
    then exits (pos 0)
    else if c == b'n'
    then run (record o { nrequests = atoi optarg })
    else if c == b'p'
    then run (record o { port = to_unsigned (2 ^ 16) (atoi optarg) })
    else if c == b's'
    then run (record o { server = optarg })
    else if c == b't'
    then run (record o { nthreads = atoi optarg })
    else if c == b'w'
    then run (record o { workload_path = optarg })
    else exits (pos 1)
