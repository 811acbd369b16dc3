-- ===== src/Download/Examples.antt =====
-- gflib/gfclient_download.c: one worker and one download.
use cache_server.Base.{
  zero, suc, arith, true, false, Option, none, some, ℕ, ◌+◌, ◌<◌, ◌≡◌, refl, List, [], ◌∷◌, length,
}
use cache_server.Base.Int.{pos, negsuc}
use cache_server.Text.{Bytes, codes}
use cache_server.Rio
use cache_server.Rio.{moves}
use cache_server.Getfile.{
  gfc_ok, gf_ok, gfc_error, digits, format_header, format_long, scan_long, scan_digits,
}
use cache_server.Options.{run, atoi, to_int, Answer, getopt_loop}
use cache_server.Options.Tools.{DownloadClient, download_defaults, download_option}
use cache_server.Workload.Load.{lines}
use cache_server.Client.{no_connection, gfc_perform}
use cache_server.Client.Calls.{
  Request, Network, gfc_create, gfc_set_server, gfc_set_path, gfc_set_port, gfc_set_writearg,
  gfc_set_writefunc, gfc_get_status, perform,
}
use cache_server.Download.Requests.{int_product, format_06d, download_main}
use cache_server.Download.Local.{local_name}
use cache_server.Download.Sequence.{item_at, tabulate, targets, Distinct, download_main-items}
use cache_server.Download.Worker.{
  Disk, Mkdir, made, Files, put, make_all, directories, open_file, files_after, close_file,
  perform_item, request_item, download_item,
}
use cache_server.Download.Stored.{IsStored, download_item-IsStored}
use cache_server.Download.Complete.{item, net, download_item-file}
use cache_server.Download.{
  Item, Main, loading, signalling, joining, waiting, joined, Download, spawn, gfclient_download,
  signal_task, take_item, finish_item, signal_done, gfclient_join,
}
use cache_server.Download.Join.{
  adds, signals, stops, tests, takes, finishes, announces, Reach, starts, step_to, join_complete,
  join_woken,
}

abbrev file_a : Item
file_a = record {
  local_path = codes "a-000000";
  req_path = codes "/a";
  server = codes "localhost";
  port = 8803;
}

abbrev state : Main → List Item → ℕ → ℕ → ℕ → List Item → List Item → Download
state m q busy awake announcing serving over = record {
  main = m;
  queue = q;
  busy = busy;
  awake = awake;
  asleep = 0;
  announcing = announcing;
  serving = serving;
  finished = over;
  added = 1;
}

abbrev one : List Item
one = file_a ∷ []

loaded-Reach : Reach 1 (state loading one 1 1 0 [] [])
unfolding spawn gfclient_download signal_task
loaded-Reach =
    step_to (state signalling one 1 1 0 [] []) (state loading one 1 1 0 [] [])
      (step_to (spawn 1) (state signalling one 1 1 0 [] []) starts (adds file_a (spawn 1) refl))
      (signals (state signalling one 1 1 0 [] []) refl)

waiting-Reach : Reach 1 (state waiting one 1 1 0 [] [])
unfolding gfclient_join
waiting-Reach =
    step_to (state joining one 1 1 0 [] []) (state waiting one 1 1 0 [] [])
      (step_to (state loading one 1 1 0 [] []) (state joining one 1 1 0 [] []) loaded-Reach
        (stops (state loading one 1 1 0 [] []) refl))
      (tests (state joining one 1 1 0 [] []) refl)

joined-Reach : Reach 1 (state joined [] 0 1 0 [] one)
unfolding gfclient_join take_item finish_item signal_done
joined-Reach =
    step_to (state joining [] 0 1 0 [] one) (state joined [] 0 1 0 [] one)
      (step_to (state waiting [] 0 0 1 [] one) (state joining [] 0 1 0 [] one)
        (step_to (state waiting [] 1 0 0 one []) (state waiting [] 0 0 1 [] one)
          (step_to (state waiting one 1 1 0 [] []) (state waiting [] 1 0 0 one []) waiting-Reach
            (takes (state waiting one 1 1 0 [] []) (state waiting [] 1 0 0 one []) refl))
          (finishes 0 (state waiting [] 1 0 0 one []) (state waiting [] 0 0 1 [] one) refl))
        (announces (state waiting [] 0 0 1 [] one) (state joining [] 0 1 0 [] one) refl))
      (tests (state joining [] 0 1 0 [] one) refl)

join_complete_example :
    (length (file_a ∷ []) ≡ 1) × (length {A = Item} [] ≡ 0) × (length {A = Item} [] ≡ 0)
join_complete_example = join_complete 1 (state joined [] 0 1 0 [] one) joined-Reach refl

join_woken_example : 0 < length (file_a ∷ []) + length {A = Item} [] + 0
join_woken_example = join_woken 1 (state waiting one 1 1 0 [] []) waiting-Reach refl

abbrev two_paths : List Bytes
two_paths = codes "/a" ∷ codes "/b" ∷ []

-- `-n 3 -t 1`
abbrev three_requests : List Answer
three_requests = (b'n', codes "3") ∷ (b't', codes "1") ∷ []

abbrev three_of_one : DownloadClient
three_of_one = record {
  server = codes "localhost";
  port = 8803;
  workload_path = codes "workload.txt";
  nrequests = pos 3;
  nthreads = pos 1;
}

parsed : getopt_loop download_option three_requests download_defaults ≡ run three_of_one
unfolding getopt_loop download_option atoi to_int scan_long scan_digits
parsed = refl

three : int_product (pos 3) (pos 1) ≡ some (pos 3)
unfolding int_product
three = refl

abbrev workload : Bytes → Option Bytes
workload _ = some (lines two_paths)

download_main-items_example :
    (download_main workload three_requests
      ≡ run (1, tabulate 3 0 (item_at (codes "localhost") 8803 two_paths)))
    × Distinct (targets (tabulate 3 0 (item_at (codes "localhost") 8803 two_paths)))
download_main-items_example =
    download_main-items workload three_requests three_of_one two_paths 3 parsed refl (ground arith)
      (omega arith) (omega arith) three

-- The third download is the first path again, to a file of its own.
third_path : (item_at (codes "localhost") 8803 two_paths 2).local_path ≡ codes "a-000002"
unfolding local_name format_06d digits
third_path = refl

-- Calls that move a byte each.
abbrev single_bytes : ℕ → List Rio.Answer
single_bytes zero = []
single_bytes (suc n) = moves 1 ∷ single_bytes n

abbrev make : Bytes → Mkdir
make _ = made

abbrev disk : Disk
disk = record { stores = λ contents. contents; unlinks = true; unlinks_again = true }

abbrev no_files : Files
no_files _ = none

header_length : length (format_header gf_ok (length (codes "abc"))) ≡ 16
unfolding format_header format_long digits
header_length = refl

dirs : directories (codes "d") (codes "/f-000000") ≡ codes "d" ∷ []
unfolding directories
dirs = refl

download_item-file_example :
    (files' : Files) × (gfr : Request) × (download_item make true disk
        (net (single_bytes 21) (single_bytes 19) false (codes "abc") [])
        (item b'd' (codes "/f-000000") (codes "/d/f") (codes "localhost") 8803)
        no_files
      ≡ run (some (files', gfr)))
    × (files' (codes "d/f-000000") ≡ some (codes "abc"))
    × (gfr.status ≡ gfc_ok)
    × (gfr.actual ≡ length (codes "abc"))
download_item-file_example =
    download_item-file make disk b'd' (codes "/f-000000") (codes "/d/f") (codes "localhost") 8803
      no_files (single_bytes 21) (single_bytes 19) false (codes "abc") []
      (rw dirs ((λ e. cc e), tt)) refl (omega arith) (omega arith) (omega arith) tt
      (rw header_length tt)

-- The server cannot be reached.
abbrev unreachable : Network
unreachable = record { link = no_connection; writes = []; reads = []; eintr = false; incoming = [] }

abbrev left_request : Request
left_request = record {
  server = some (codes "localhost");
  path = some (codes "/a");
  write = true;
  fp = some (codes "a-000000");
  len = 0;
  actual = 0;
  status = gfc_error;
  port = 8803;
}

abbrev left_files : Files
left_files =
    files_after disk (codes "a-000000") [] (negsuc 2) gfc_error
      (put (codes "a-000000") (some []) no_files)

not_reached :
    download_item make true disk unreachable file_a no_files ≡ run (some (left_files, left_request))
unfolding download_item open_file directories make_all request_item perform_item perform close_file
    files_after gfc_create gfc_set_server gfc_set_path gfc_set_port gfc_set_writearg
    gfc_set_writefunc gfc_get_status gfc_perform
not_reached = refl

download_item-IsStored_example :
    IsStored left_files (codes "a-000000") left_request
    × (left_files (codes "b") ≡ no_files (codes "b"))
download_item-IsStored_example =
    download_item-IsStored make true disk unreachable file_a no_files left_files left_request
      (codes "b") ((λ contents. refl), refl, refl) not_reached refl
