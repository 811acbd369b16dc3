-- ===== src/Download.antt =====
-- gflib/gfclient_download.c: the queue of downloads, the worker threads, and `gfclient_join`. Each
-- function is one critical section, or what one thread does between two of them.
pub mod Join
pub mod Requests
pub mod Local
pub mod Sequence
pub mod Worker
pub mod Stored
pub mod Complete
mod Examples
use cache_server.Base.{
  ℕ, zero, suc, ◌+◌, ◌-◌, Bool, true, false, ◌||◌, Option, none, some, List, [], ◌∷◌, ◌++◌, length,
  get_elem?, take, drop, ◌==◌, if◌then◌else◌,
}
use cache_server.Base.Int.{ℤ, is_neg}
use cache_server.Text.{Bytes}
use cache_server.Getfile.{gf_ok}

-- `item`
pub record Item : Type 0 where
  pub local_path : Bytes
  pub req_path : Bytes
  pub server : Bytes
  pub port : ℕ

-- Where the main thread is: before the next request, before the signal of `gfclient_download`, at the
-- test of `gfclient_join`, waiting for `done`, or behind the wait.
pub data Main : Type 0 where
  loading signalling joining waiting joined : Main

-- The queue, `busy`, the workers that will lock the mutex, those asleep, those about to signal `done`,
-- the downloads in work, and those finished. `added` counts all requests.
pub record Download : Type 0 where
  pub main : Main
  pub queue : List Item
  pub busy : ℕ
  pub awake : ℕ
  pub asleep : ℕ
  pub announcing : ℕ
  pub serving : List Item
  pub finished : List Item
  pub added : ℕ

-- `steque_init` and `spawn`
pub spawn : (nthreads : ℕ) → Download
spawn nthreads = record {
  main = loading;
  queue = [];
  busy = 0;
  awake = nthreads;
  asleep = 0;
  announcing = 0;
  serving = [];
  finished = [];
  added = 0;
}

-- `gfclient_download` up to the unlock.
pub gfclient_download : Item → Download → Download
gfclient_download it s = record s {
  main = signalling;
  queue = s.queue ++ it ∷ [];
  busy = s.busy + 1;
  added = s.added + 1;
}

-- Its signal on `task`.
pub signal_task : Download → Download
signal_task s = elim s.asleep [
  | zero ↦ record s { main = loading }
  | suc n ↦ record s { main = loading; asleep = n; awake = s.awake + 1 }
]

-- A worker locks the mutex: it takes an item, or waits.
pub take_item : Download → Option Download
take_item s = elim s.awake [
  | zero ↦ none
  | suc n ↦ elim s.queue [
    | [] ↦ some (record s { awake = n; asleep = s.asleep + 1 })
    | it ∷ rest ↦ some (record s { queue = rest; awake = n; serving = s.serving ++ it ∷ [] })
  ]
]

-- A wait for `task` may end with no signal.
pub wake_worker : Download → Option Download
wake_worker s = elim s.asleep [
  | zero ↦ none
  | suc n ↦ some (record s { asleep = n; awake = s.awake + 1 })
]

-- `tmp = --busy`, for the download in work at an index; `tmp` decides whether the worker signals.
pub finish_item : ℕ → Download → Option Download
finish_item i s = elim (get_elem? s.serving i) [
  | none ↦ none
  | some it ↦
      let last = s.busy - 1 == 0 in
      some (record s {
        busy = s.busy - 1;
        awake = if last then s.awake else s.awake + 1;
        announcing = if last then s.announcing + 1 else s.announcing;
        serving = take i s.serving ++ drop (i + 1) s.serving;
        finished = s.finished ++ it ∷ [];
      })
]

-- A signal on `done` wakes the main thread, which takes the lock again.
abbrev pub wake_main : Main → Main
wake_main waiting = joining
wake_main m = m

-- The signal on `done`.
pub signal_done : Download → Option Download
signal_done s = elim s.announcing [
  | zero ↦ none
  | suc n ↦ some (record s { announcing = n; awake = s.awake + 1; main = wake_main s.main })
]

-- `gfclient_join`: the test of the loop.
pub gfclient_join : Download → Download
gfclient_join s = record s { main = if s.busy == 0 then joined else waiting }
