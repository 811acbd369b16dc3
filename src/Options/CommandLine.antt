-- ===== src/Options/CommandLine.antt =====
-- cache/webproxy.c: what a command line in range starts, and what a negative segment count does.
use cache_server.Base.{
  ℕ, ◌^◌, ◌≤◌, ◌<◌, ◌≡◌, refl, sym, ap, ◌∙◌, true, Option, none, some, List, [], ◌∷◌, arith,
}
use cache_server.Base.Int.{pos, negsuc}
use cache_server.Text.{Bytes}
use cache_server.Steque.{Ptr, Steque, Outcome, ok, out_of_fuel}
use cache_server.Steque.Refine.{Returns}
use cache_server.Pool.{shm_pop}
use cache_server.Pool.Segments.{init-zero}
use cache_server.Options.{run, atoi, Answer}
use cache_server.Options.Proxies.{
  CacheProxy, Ipc, Made, outcome_start, init_handlers, webproxy_main,
}
use cache_server.Options.Settings.{cache_handler}
use cache_server.Options.Setup.{serving}
use cache_server.Options.Loop.{last_arg}
use cache_server.Options.Accepts.{webproxy_last, cache_proxy, webproxy_main-Allowed}
use cache_server.Options.Numbers.{
  decimal, atoi-decimal, to_int-fits, to_int-negative, uint-negative, short-fits, uint-fits,
  size-fits,
}

-- The options `-p PORT -t THREADS -n SEGMENTS -z SIZE -s SERVER`, in their printed form.
pub command_line : (port threads segments size : ℕ) → (server : Bytes) → List Answer
command_line port threads segments size server =
    (b'p', decimal port)
    ∷ (b't', decimal threads)
    ∷ (b'n', decimal segments)
    ∷ (b'z', decimal size)
    ∷ (b's', server)
    ∷ []

module _ (port threads segments size sizeof_cache : ℕ) (server : Bytes) (ipc : Ipc)
    (made : Made) where
  last_command_line :
      port < 2 ^ 16
      → threads < 2 ^ 16
      → segments < 2 ^ 31
      → size < 2 ^ 31
      → webproxy_last (command_line port threads segments size server) ≡ record {
        port = port;
        nworkerthreads = threads;
        nsegments = segments;
        segsize = size;
        server = some server;
      }
  unfolding webproxy_last command_line last_arg
  last_command_line p t n z =
      rw
        (
          atoi-decimal port (omega arith),
          atoi-decimal threads (omega arith),
          atoi-decimal segments n,
          atoi-decimal size z,
          short-fits port p,
          short-fits threads t,
          uint-fits segments n,
          size-fits size z,
        )
        refl

  -- Printed options are read back: with a port of 1024 to 65535, 1 to 8803 threads, and a number
  -- of segments and a size below 2^31 that the tests allow, if `init_cache_handlers` makes the message queue
  -- and this number of segments without an exit, the proxy starts with these and with exactly these
  -- values.
  pub webproxy_main-command_line :
      1024 ≤ port
      → port < 2 ^ 16
      → 1 ≤ threads
      → threads ≤ 8803
      → 1 ≤ segments
      → segments < 2 ^ 31
      → 128 ≤ size
      → sizeof_cache ≤ size
      → size < 2 ^ 31
      → init_handlers ipc (pos segments) ≡ run made
      → webproxy_main sizeof_cache ipc (true, true) (command_line port threads segments size server)
        ≡ run (
          record {
            seg_size = pos size;
            nsegments = pos segments;
            gfs = serving threads port 42 cache_handler (some server);
          },
          made,
        )
  unfolding command_line cache_proxy
  webproxy_main-command_line p0 p1 t0 t1 n0 n1 z0 z1 z2 init =
      let last = last_command_line p1 (omega arith) n1 z2 in
      (webproxy_main-Allowed sizeof_cache ipc (command_line port threads segments size server) _
          made).1
        (
          refl,
          (
            rw last (p0, t0, t1, n0, z0, z1),
            (
              rw (last, to_int-fits segments n1) init,
              sym (rw (last, to_int-fits segments n1, to_int-fits size z2) refl),
            ),
          ),
        )

Returns-outcome_start :
    (r : Outcome ℕ ℕ) (P : Steque ℕ → Type 0)
    → Returns r (λ _ t. P t)
    → (made : Made) × (outcome_start r ≡ run made) × P made.pool
Returns-outcome_start (ok msqid pool) P h = (record { msqid = msqid; pool = pool }, refl, h)
Returns-outcome_start Outcome.fault P h = elim h [ ]
Returns-outcome_start (Outcome.exits code) P h = elim h [ ]
Returns-outcome_start out_of_fuel P h = elim h [ ]

-- The message queue is there.
abbrev pub with_queue : (key msqid : ℕ) → (ℕ → Option ℕ) → (ℕ → Ptr) → Steque ℕ → Ipc
with_queue key msqid segment fresh s = record {
  ftok = some key;
  msgget = λ _. some msqid;
  segment = segment;
  fresh = fresh;
  statics = s;
}

init_handlers-zero :
    (key msqid k : ℕ) (segment : ℕ → Option ℕ) (fresh : ℕ → Ptr) (s : Steque ℕ)
    → (made : Made) × (init_handlers (with_queue key msqid segment fresh s) (negsuc k) ≡ run made)
      × Returns (shm_pop made.pool) (λ found _. found ≡ none)
unfolding init_handlers
init_handlers-zero key msqid k segment fresh s =
    Returns-outcome_start _ (λ t. Returns (shm_pop t) (λ found _. found ≡ none))
      (init-zero key msqid segment fresh s)

module _ (sizeof_cache k key msqid : ℕ) (arg : Bytes) (segment : ℕ → Option ℕ) (fresh : ℕ → Ptr)
    (s : Steque ℕ) where
  -- With one option `-n`, an argument that `atoi` reads as a negative number, and a message queue, the proxy
  -- starts; the number of segments is that negative number, so `init_cache_handlers` creates none,
  -- and the first `shm_pop` finds the queue empty and waits. This needs `sizeof(cache)` of at most
  -- 8803 bytes, the default size of a segment.
  pub negative_segments :
      sizeof_cache ≤ 8803
      → atoi arg ≡ negsuc k
      → k < 2 ^ 31
      → (w : CacheProxy) × (made : Made) × (webproxy_main sizeof_cache
            (with_queue key msqid segment fresh s)
            (true, true)
            ((b'n', arg) ∷ [])
          ≡ run (w, made))
        × (w.nsegments ≡ negsuc k)
        × Returns (shm_pop made.pool) (λ found _. found ≡ none)
  unfolding cache_proxy webproxy_last last_arg
  negative_segments size negative small =
      let options : List Answer = (b'n', arg) ∷ [] in
      let ipc = with_queue key msqid segment fresh s in
      let w = cache_proxy (webproxy_last options) in
      let count : w.nsegments ≡ negsuc k = rw negative (to_int-negative k small) in
      let (made, init, waits) = init_handlers-zero key msqid k segment fresh s in
      (
        w,
        made,
        (webproxy_main-Allowed sizeof_cache ipc options w made).1 (
          refl,
          (
            (
              omega arith,
              omega arith,
              omega arith,
              rw negative (uint-negative k small),
              omega arith,
              size,
            ),
            (ap (init_handlers ipc) count ∙ init, refl),
          ),
        ),
        count,
        waits,
      )
