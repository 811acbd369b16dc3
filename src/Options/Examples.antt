-- ===== src/Options/Examples.antt =====
-- cache/webproxy.c, curl/webproxy.c, gflib/gfserver_main.c, cache/simplecached.c: command lines and
-- signals.
use cache_server.Base.{ℕ, ◌+◌, ◌≡◌, ◌↔◌, refl, true, false, inl, none, some, List, [], ◌∷◌, arith}
use cache_server.Base.Int.{ℤ, pos, negsuc}
use cache_server.Text.{codes}
use cache_server.Getfile.{scan_long, scan_digits}
use cache_server.Steque.{
  Steque, Heap, node, write, steque_init, steque_enqueue, new_node, set_next, load,
}
use cache_server.Steque.Refine.{Returns, steque}
use cache_server.Pool.{shm_push, shm_pop, init_loop, getmsqid, init_cache_handlers}
use cache_server.Options.{run, atoi, to_int, to_unsigned, Answer}
use cache_server.Options.Settings.{Settings, cache_handler, curl_handler}
use cache_server.Options.Proxies.{CacheProxy, Ipc, Made, init_handlers, webproxy_main}
use cache_server.Options.Tools.{Disk, Cache}
use cache_server.Options.Setup.{serving}
use cache_server.Options.Loop.{last_arg, all_known}
use cache_server.Options.Accepts.{
  Allowed, is_webproxy_option, webproxy_last, cache_proxy, webproxy_main-Allowed,
}
use cache_server.Server.{Task}
use cache_server.Server.Concrete.{Represents}
use cache_server.Options.Signals.{
  Interrupted, Ended, killed, webproxy_sig_handler, curl_sig_handler, Keeps, killed_by_signal,
}
use cache_server.Options.CommandLine.{
  command_line, webproxy_main-command_line, with_queue, negative_segments,
}

-- `-t 2 -t 70000`: the number of threads wraps at 2^16.
abbrev two_threads : List Answer
two_threads = (b't', codes "2") ∷ (b't', codes "70000") ∷ []

abbrev four_threads : CacheProxy
four_threads = record {
  seg_size = pos 8803;
  nsegments = pos 8;
  gfs =
      serving 4464 8803 42 cache_handler (some (codes "s3.amazonaws.com/content.udacity-data.com"));
}

wrapped : cache_proxy (webproxy_last two_threads) ≡ four_threads
unfolding cache_proxy webproxy_last last_arg atoi to_int to_unsigned scan_long scan_digits
wrapped = refl

abbrev statics : Steque ℕ
statics = record { front = 0; back = 0; count = 0; heap = λ p. none }

-- The segments are 40, 41 and so on.
abbrev ipc : Ipc
ipc = record {
  ftok = some 5;
  msgget = λ key. some (key + 4);
  segment = λ i. some (40 + i);
  fresh = λ i. i + 1;
  statics = statics;
}

abbrev two_pool : Steque ℕ
two_pool = record {
  front = 1;
  back = 2;
  count = 2;
  heap =
      write (write (write (λ _. none) 1 (some (node 40 0))) 2 (some (node 41 0))) 1
        (some (node 40 2));
}

abbrev two_made : Made
two_made = record { msqid = 9; pool = two_pool }

two_segments : init_handlers ipc (pos 2) ≡ run two_made
unfolding init_handlers init_cache_handlers getmsqid init_loop shm_push steque_init steque_enqueue
    new_node set_next load
two_segments = refl

abbrev last_proxy : CacheProxy
last_proxy = cache_proxy (webproxy_last two_threads)

webproxy_main-Allowed_example :
    webproxy_main 168 ipc (true, true) two_threads ≡ run (last_proxy, two_made) ↔ (
      (all_known is_webproxy_option two_threads ≡ true)
      × (Allowed 168 (webproxy_last two_threads)
          × ((init_handlers ipc (to_int (webproxy_last two_threads).nsegments) ≡ run two_made)
              × (last_proxy ≡ cache_proxy (webproxy_last two_threads)))))
webproxy_main-Allowed_example = webproxy_main-Allowed 168 ipc two_threads last_proxy two_made

webproxy_main-command_line_example :
    webproxy_main 168 ipc (true, true) (command_line 1024 4 2 4096 (codes "host"))
    ≡ run (
      record {
        seg_size = pos 4096;
        nsegments = pos 2;
        gfs = serving 4 1024 42 cache_handler (some (codes "host"));
      },
      two_made,
    )
webproxy_main-command_line_example =
    webproxy_main-command_line 1024 4 2 4096 168 (codes "host") ipc two_made (omega arith)
      (omega arith) (omega arith) (omega arith) (omega arith) (omega arith) (omega arith)
      (omega arith) (omega arith) two_segments

minus_one : atoi (codes "-1") ≡ negsuc 0
unfolding atoi to_int scan_long scan_digits
minus_one = refl

abbrev empty_queue : Steque ℕ
empty_queue = steque 0 0 0 (λ _. none)

negative_segments_example :
    (w : CacheProxy) × (made : Made) × (webproxy_main 168
        (with_queue 5 9 (λ i. some i) (λ i. i) empty_queue)
        (true, true)
        ((b'n', codes "-1") ∷ [])
      ≡ run (w, made))
    × (w.nsegments ≡ negsuc 0)
    × Returns (shm_pop made.pool) (λ found _. found ≡ none)
negative_segments_example =
    negative_segments 168 0 5 9 (codes "-1") (λ i. some i) (λ i. i) empty_queue (omega arith)
      minus_one (omega arith)

abbrev a_settings : Settings
a_settings = serving 3 9000 12 curl_handler (some (codes "host"))

-- The list file has no row.
abbrev disk : Disk
disk = record { open_fd = λ i path. some 7; qsort = λ items. items; fopen = λ name. some [] }

abbrev five_threads : Cache
five_threads = record { table = []; msqid = 9; nthreads = pos 5 }

-- SIGINT with two connections queued and one free segment, and the message queue 9.
abbrev one_task : ℕ → Task
one_task n = record { path = codes "/a"; ctx = n }

abbrev two_tasks : Heap Task
two_tasks a =
    write (write (λ _. none) 1 (some (node (one_task 5) 2))) 2 (some (node (one_task 6) 0)) a

abbrev one_segment : Heap ℕ
one_segment a = write (λ _. none) 1 (some (node 40 0)) a

abbrev proxy_at_work : Interrupted
proxy_at_work = record {
  tasks = steque 1 2 2 two_tasks;
  pool = steque 1 1 1 one_segment;
  msqid = pos 9;
  holds_server = false;
  holds_pool = false;
}

tasks_kept : Represents proxy_at_work.tasks (one_task 5 ∷ one_task 6 ∷ [])
tasks_kept = (
  (1, one_task 5) ∷ (2, one_task 6) ∷ [],
  record { linked = ground arith; front = refl; back = refl; count = refl; small = omega arith },
  refl,
)

segments_kept : Keeps proxy_at_work.pool (40 ∷ [])
segments_kept = (
  (1, 40) ∷ [],
  record { linked = ground arith; front = refl; back = refl; count = refl; small = omega arith },
  refl,
)

abbrev all_closed : List ℤ → List ℕ → Ended
all_closed queues segments =
    killed
      (record { closed = 5 ∷ 6 ∷ []; queues = queues; segments = segments; files = []; code = 2 })

killed_by_signal_example :
    (webproxy_sig_handler 3 2 proxy_at_work ≡ all_closed (pos 9 ∷ []) (40 ∷ []))
    × (curl_sig_handler 3 2 proxy_at_work ≡ all_closed [] [])
killed_by_signal_example =
    killed_by_signal 3 proxy_at_work 2 (one_task 5 ∷ one_task 6 ∷ []) (40 ∷ []) (inl refl)
      tasks_kept segments_kept (omega arith) (omega arith) refl
