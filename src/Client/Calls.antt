-- ===== src/Client/Calls.antt =====
-- gflib/gfclient.c: a request and the calls on it. `gfc_perform` is that of `Client`, which takes the
-- path and gives the fields that it leaves in the request.
use cache_server.Base.{ℕ, Bool, true, false, Option, none, some, List, ltb, if◌then◌else◌}
use cache_server.Base.Int.{pos}
use cache_server.Text.{Bytes}
use cache_server.Rio.{Answer}
use cache_server.Options.{Start, exits, fault, run}
use cache_server.Client.{Link, Performed, gfc_perform}

-- `gfcrequest_t`; `write` and `fp` are the callback and its file, by the file's path. `headerfunc` is not set
-- by the program.
pub record Request : Type 0 where
  pub server : Option Bytes
  pub path : Option Bytes
  pub write : Bool
  pub fp : Option Bytes
  pub len : ℕ
  pub actual : ℕ
  pub status : ℕ
  pub port : ℕ

unfoldable pub gfc_create : Request
gfc_create = record {
  server = none;
  path = none;
  write = false;
  fp = none;
  len = 0;
  actual = 0;
  status = 0;
  port = 0;
}

unfoldable pub gfc_get_bytesreceived : Request → ℕ
gfc_get_bytesreceived gfr = gfr.actual

unfoldable pub gfc_get_filelen : Request → ℕ
gfc_get_filelen gfr = gfr.len

unfoldable pub gfc_get_status : Request → ℕ
gfc_get_status gfr = gfr.status

unfoldable pub gfc_set_path : Request → Bytes → Request
gfc_set_path gfr path = record gfr { path = some path }

unfoldable pub gfc_set_port : Request → ℕ → Start Request
gfc_set_port gfr port = if ltb port 1025 then exits (pos 1) else run (record gfr { port = port })

unfoldable pub gfc_set_server : Request → Bytes → Request
gfc_set_server gfr server = record gfr { server = some server }

unfoldable pub gfc_set_writearg : Request → Bytes → Request
gfc_set_writearg gfr file = record gfr { fp = some file }

unfoldable pub gfc_set_writefunc : Request → Request
gfc_set_writefunc gfr = record gfr { write = true }

-- What the network does during a call of `gfc_perform`.
pub record Network : Type 0 where
  pub link : Link
  pub writes : List Answer
  pub reads : List Answer
  pub eintr : Bool
  pub incoming : Bytes

abbrev pub settled : Request → Option Performed → Start (Performed × Request)
settled gfr none = fault
settled gfr (some p) = run (p, record gfr { len = p.len; actual = p.actual; status = p.status })

-- `gfc_perform` on a request: a fault if there is no path, or if it overflows the buffer.
abbrev pub perform_to : Network → Request → Option Bytes → Start (Performed × Request)
perform_to net gfr none = fault
perform_to net gfr (some path) =
    settled gfr (gfc_perform net.link net.writes net.reads net.eintr net.incoming path)

unfoldable pub perform : Network → Request → Start (Performed × Request)
perform net gfr = perform_to net gfr gfr.path
