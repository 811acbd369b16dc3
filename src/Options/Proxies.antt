-- ===== src/Options/Proxies.antt =====
-- cache/webproxy.c and curl/webproxy.c: the options of the proxies and what `main` does with them.
use cache_server.Base.{ℕ, ◌^◌, Bool, ◌||◌, Option, none, some, List, ◌==◌, ltb, if◌then◌else◌}
use cache_server.Base.Int.{ℤ, pos, negsuc}
use cache_server.Text.{Bytes, codes}
use cache_server.Steque.{Ptr, Steque, Outcome, ok, out_of_fuel}
use cache_server.Pool.{init_cache_handlers, rounds}
use cache_server.Options.{
  Start, exits, run, then_start, to_int, to_unsigned, atoi, Answer, getopt_loop, catch_signals,
}
use cache_server.Options.Settings.{Settings, set_up, cache_handler, curl_handler}

-- The variables of the `main` of cache/webproxy.c.
pub record Webproxy : Type 0 where
  pub port : ℕ
  pub nworkerthreads : ℕ
  pub nsegments : ℕ
  pub segsize : ℕ
  pub server : Option Bytes

-- `SERVER_FAILURE`
abbrev server_failure : ℤ
server_failure = negsuc 0

abbrev pub default_server : Option Bytes
default_server = some (codes "s3.amazonaws.com/content.udacity-data.com")

abbrev pub webproxy_defaults : Webproxy
webproxy_defaults = record {
  port = 8803;
  nworkerthreads = 2;
  nsegments = 8;
  segsize = 8803;
  server = default_server;
}

-- The `switch`. 109 is the line of the `exit`.
unfoldable pub webproxy_option : ℕ → Bytes → Webproxy → Start Webproxy
unfolding to_unsigned atoi
webproxy_option c optarg o =
    if c == b'n'
    then run (record o { nsegments = to_unsigned (2 ^ 32) (atoi optarg) })
    else if c == b'p'
    then run (record o { port = to_unsigned (2 ^ 16) (atoi optarg) })
    else if c == b's'
    then run (record o { server = some optarg })
    else if c == b't'
    then run (record o { nworkerthreads = to_unsigned (2 ^ 16) (atoi optarg) })
    else if c == b'z'
    then run (record o { segsize = to_unsigned (2 ^ 64) (atoi optarg) })
    else if c == b'i'
    then run o
    else if c == b'h'
    then exits (pos 0)
    else exits (pos 109)

-- The tests after the loop, with the lines of their `exit`s.
unfoldable pub webproxy_guards : (sizeof_cache : ℕ) → Webproxy → Start Webproxy
webproxy_guards sizeof_cache o = elim o.server [
  | none ↦ exits (pos 115)
  | some _ ↦
      if ltb o.segsize 128
      then exits (pos 120)
      else if ltb o.nsegments 1
      then exits (pos 125)
      else if ltb o.port 1024
      then exits (pos 130)
      else if ltb o.nworkerthreads 1 || ltb 8803 o.nworkerthreads
      then exits (pos 135)
      else if ltb o.segsize sizeof_cache
      then exits (pos 142)
      else run o
]

-- The answers to the calls of `init_cache_handlers`, with the static steque.
pub record Ipc : Type 0 where
  pub ftok : Option ℕ
  pub msgget : ℕ → Option ℕ
  pub segment : ℕ → Option ℕ
  pub fresh : ℕ → Ptr
  pub statics : Steque ℕ

-- The static `msqid` and the queue of segments after it.
pub record Made : Type 0 where
  pub msqid : ℕ
  pub pool : Steque ℕ

abbrev pub outcome_start : Outcome ℕ ℕ → Start Made
outcome_start (ok msqid pool) = run (record { msqid = msqid; pool = pool })
outcome_start Outcome.fault = Start.fault
outcome_start (Outcome.exits code) = exits code
outcome_start out_of_fuel = Start.fault

-- `init_cache_handlers`
unfoldable pub init_handlers : Ipc → (nsegments : ℤ) → Start Made
init_handlers ipc nsegments =
    outcome_start
      (init_cache_handlers ipc.ftok ipc.msgget ipc.segment ipc.fresh (rounds nsegments) ipc.statics)

-- The arguments of `init_cache_handlers`, and the server that is to serve.
pub record CacheProxy : Type 0 where
  pub seg_size : ℤ
  pub nsegments : ℤ
  pub gfs : Settings

unfoldable pub webproxy_start : Ipc → Webproxy → Start (CacheProxy × Made)
unfolding to_int set_up init_handlers
webproxy_start ipc o = then_start (init_handlers ipc (to_int o.nsegments)) λ made.
    then_start (set_up o.nworkerthreads o.port 42 cache_handler o.server) λ gfs.
      run (record { seg_size = to_int o.segsize; nsegments = to_int o.nsegments; gfs = gfs }, made)

-- What `gfserver_serve` is called with, and the message queue and the segments that have been made.
unfoldable pub webproxy_main :
    (sizeof_cache : ℕ) → Ipc → Bool × Bool → List Answer → Start (CacheProxy × Made)
unfolding webproxy_option webproxy_guards webproxy_start getopt_loop catch_signals
webproxy_main sizeof_cache ipc signals options = catch_signals signals server_failure (
    then_start (getopt_loop webproxy_option options webproxy_defaults)
      λ o. then_start (webproxy_guards sizeof_cache o) (webproxy_start ipc))

-- The variables of the `main` of curl/webproxy.c.
pub record CurlProxy : Type 0 where
  pub port : ℕ
  pub nworkerthreads : ℕ
  pub server : Option Bytes

abbrev pub curl_defaults : CurlProxy
curl_defaults = record { port = 8803; nworkerthreads = 1; server = default_server }

unfoldable pub curl_option : ℕ → Bytes → CurlProxy → Start CurlProxy
unfolding to_unsigned atoi
curl_option c optarg o =
    if c == b'p'
    then run (record o { port = to_unsigned (2 ^ 16) (atoi optarg) })
    else if c == b's'
    then run (record o { server = some optarg })
    else if c == b't'
    then run (record o { nworkerthreads = to_unsigned (2 ^ 16) (atoi optarg) })
    else if c == b'h'
    then exits (pos 0)
    else exits (pos 1)

unfoldable pub curl_guards : CurlProxy → Start CurlProxy
curl_guards o = if ltb o.port 1024 then exits (pos 90) else elim o.server [
  | none ↦ exits (pos 95)
  | some _ ↦ if ltb o.nworkerthreads 1 || ltb 1024 o.nworkerthreads then exits (pos 100) else run o
]

unfoldable pub curl_main : Bool × Bool → List Answer → Start Settings
unfolding curl_option curl_guards getopt_loop catch_signals set_up
curl_main signals options = catch_signals signals server_failure (
    then_start (getopt_loop curl_option options curl_defaults)
      λ o. then_start (curl_guards o) λ o. set_up o.nworkerthreads o.port 12 curl_handler o.server)
