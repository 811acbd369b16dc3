-- ===== src/Server.antt =====
-- gflib/gfserver.c: the accept loop, the queue of requests and the workers. A state has the queue as
-- the list that the steque represents. Each function is one critical section, or what one
-- thread does between two of them.
pub mod Queue
pub mod Concrete
mod Examples
use cache_server.Base.{
  ℕ, zero, suc, ◌+◌, ◌-◌, Bool, true, false, Option, none, some, List, [], ◌∷◌, ◌++◌, length,
  get_elem?, take, drop,
}
use cache_server.Base.Int.{pos, negsuc}
use cache_server.Text.{Bytes}
use cache_server.Rio.{Got}
use cache_server.Getfile.{parse_head, format_header, gf_file_not_found}

-- `item`: the path and the connection.
pub record Task : Type 0 where
  pub path : Bytes
  pub ctx : ℕ

-- Where the accepting thread is: before `accept`, or before the signal of `add_task`.
pub data Boss : Type 0 where
  accepting signalling : Boss

-- The queue, the number of workers that will lock the mutex and of those asleep, the requests being
-- handled, and the connections closed. `added` and `taken` record what went into and out of the queue.
pub record Server : Type 0 where
  pub boss : Boss
  pub queue : List Task
  pub awake : ℕ
  pub asleep : ℕ
  pub serving : List Task
  pub closed : List ℕ
  pub added : List Task
  pub taken : List Task

-- `gfserver_init` and `spawn_workers`
pub gfserver_init : (nthreads : ℕ) → Server
gfserver_init nthreads = record {
  boss = accepting;
  queue = [];
  awake = nthreads;
  asleep = 0;
  serving = [];
  closed = [];
  added = [];
  taken = [];
}

-- `add_task` up to the unlock.
pub add_task : Task → Server → Server
add_task t s = record s { boss = signalling; queue = s.queue ++ t ∷ []; added = s.added ++ t ∷ [] }

-- The signal of `add_task` wakes a worker that waits.
pub signal_nonempty : Server → Server
signal_nonempty s = elim s.asleep [
  | zero ↦ record s { boss = accepting }
  | suc n ↦ record s { boss = accepting; asleep = n; awake = s.awake + 1 }
]

-- `gfs_abort`
pub gfs_abort : ℕ → Server → Server
gfs_abort ctx s = record s { closed = s.closed ++ ctx ∷ [] }

-- The path, if `readheader` and `parse_head` both succeed.
unfoldable pub request_path : Got → Option Bytes
request_path head = elim head.result [
  | none ↦ none
  | some (negsuc _) ↦ none
  | some (pos zero) ↦ none
  | some (pos (suc _)) ↦ parse_head head.bytes
]

-- The body of the loop of `gfserver_serve` for a connection whose header has been read, with what
-- `gfs_sendheader` is to send.
pub gfserver_serve : (ctx : ℕ) → Got → Server → Server × Bytes
unfolding add_task gfs_abort request_path
gfserver_serve ctx head s = elim (request_path head) [
  | none ↦ (gfs_abort ctx s, format_header gf_file_not_found 0)
  | some path ↦ (add_task (record { path = path; ctx = ctx }) s, [])
]

-- A worker locks the mutex: it takes the first task, or waits.
pub take_task : Server → Option Server
take_task s = elim s.awake [
  | zero ↦ none
  | suc n ↦ elim s.queue [
    | [] ↦ some (record s { awake = n; asleep = s.asleep + 1 })
    | t ∷ rest ↦ some (record s {
      queue = rest;
      awake = n;
      serving = s.serving ++ t ∷ [];
      taken = s.taken ++ t ∷ [];
    })
  ]
]

-- A worker whose handler has returned, for the request at an index, closes the connection.
pub finish_task : ℕ → Server → Option Server
unfolding gfs_abort
finish_task i s = elim (get_elem? s.serving i) [
  | none ↦ none
  | some t ↦ some (
      gfs_abort t.ctx
        (record s { awake = s.awake + 1; serving = take i s.serving ++ drop (i + 1) s.serving }))
]

-- A wait may end with no signal.
pub wake_up : Server → Option Server
wake_up s = elim s.asleep [
  | zero ↦ none
  | suc n ↦ some (record s { asleep = n; awake = s.awake + 1 })
]

-- `gfserver_stop`: the queued connections are closed, in order.
pub stop_loop : List Task → List ℕ → List ℕ
stop_loop [] closed = closed
stop_loop (t ∷ queue) closed = stop_loop queue (closed ++ t.ctx ∷ [])

pub gfserver_stop : Server → Server
unfolding stop_loop
gfserver_stop s = record s { queue = []; closed = stop_loop s.queue s.closed }
