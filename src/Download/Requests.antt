-- ===== src/Download/Requests.antt =====
-- gflib/gfclient_download.c: `main` loads the workload and requests its paths, each to a file of its own.
use cache_server.Base.{
  ℕ, zero, suc, ◌+◌, ◌-◌, ◌*◌, ◌^◌, Option, none, some, List, [], ◌∷◌, ◌++◌, ltb, length,
  if◌then◌else◌,
}
use cache_server.Base.Int.{ℤ, pos, negsuc}
use cache_server.Text.{Bytes}
use cache_server.Getfile.{digits}
use cache_server.Options.{Start, exits, fault, run, then_start, Answer, getopt_loop}
use cache_server.Options.Settings.{replicate}
use cache_server.Options.Tools.{DownloadClient, download_defaults, download_option}
use cache_server.Pool.{rounds}
use cache_server.Workload.{Workload, workload_init, workload_get_path}
use cache_server.Download.{Item}

-- `%06d` for a number that is not negative.
unfoldable pub format_06d : ℕ → Bytes
format_06d n = let text = digits 20 n in replicate (6 - length text) b'0' ++ text

-- `localPath` with its counter: `none` if `&req_path[1]` is behind the string, or if the text does not fit
-- the 512 bytes of `local_path` with its NUL.
unfoldable pub local_path : Bytes → (counter : ℕ) → Option Bytes
unfolding format_06d
local_path [] counter = none
local_path (_ ∷ path) counter =
    let text = path ++ b'-' ∷ format_06d counter in
    if ltb (length text) 512 then some text else none

-- The product of two `int`s, if it is one.
unfoldable pub int_product : ℤ → ℤ → Option ℤ
int_product (pos m) (pos n) = if ltb (m * n) (2 ^ 31) then some (pos (m * n)) else none
int_product (negsuc m) (negsuc n) =
    if ltb ((m + 1) * (n + 1)) (2 ^ 31) then some (pos ((m + 1) * (n + 1))) else none
int_product (pos zero) (negsuc n) = some (pos 0)
int_product (pos (suc m)) (negsuc n) =
    if ltb (2 ^ 31) ((m + 1) * (n + 1)) then none else some (negsuc ((m + 1) * (n + 1) - 1))
int_product (negsuc m) (pos zero) = some (pos 0)
int_product (negsuc m) (pos (suc n)) =
    if ltb (2 ^ 31) ((m + 1) * (n + 1)) then none else some (negsuc ((m + 1) * (n + 1) - 1))

-- The loop of `main` with `n` rounds left: the downloads that it queues. `counter` is that of `localPath`.
unfoldable pub request_loop :
    (n : ℕ) (server : Bytes) (port : ℕ) → Workload → (counter : ℕ) → Start (List Item)
unfolding local_path workload_get_path
request_loop zero server port w counter = run []
request_loop (suc n) server port w counter = then_start (workload_get_path w) λ (path, w').
    if ltb 256 (length path) then exits (pos 1) else elim (local_path path counter) [
      | none ↦ fault
      | some local ↦ then_start (request_loop n server port w' (counter + 1)) λ items.
          run (record { local_path = local; req_path = path; server = server; port = port } ∷ items)
    ]

-- `main` from the loaded workload on: the number of threads that are spawned, and the downloads in order.
unfoldable pub queue_requests : DownloadClient → Workload → Start (ℕ × List Item)
unfolding int_product request_loop
queue_requests o w = elim (int_product o.nrequests o.nthreads) [
  | none ↦ fault
  | some n ↦
      then_start (request_loop (rounds n) o.server o.port w 0)
        λ items. run (rounds o.nthreads, items)
]

-- `open_file` is `fopen`.
unfoldable pub download_main :
    (open_file : Bytes → Option Bytes) → List Answer → Start (ℕ × List Item)
unfolding download_option getopt_loop workload_init queue_requests
download_main open_file options =
    then_start (getopt_loop download_option options download_defaults) λ o.
      then_start (workload_init (open_file o.workload_path))
        λ loaded. elim loaded [ none ↦ exits (pos 1) | some w ↦ queue_requests o w ]
