-- ===== src/Pool/Sharing.antt =====
-- cache/handle_with_cache.c, cache/shm_channel.c and cache/simplecached.c: several requests at once share
-- the segments. A state has, in order, the free segments, those whose handler has not yet sent its message, the
-- messages in the queue, the segments whose handlers take part in a transfer, those that a worker has attached,
-- and those whose handler has given up.
use cache_server.Base.{
  ℕ, zero, suc, Bool, Option, none, some, List, [], ◌∷◌, ◌++◌, leb, length, if◌then◌else◌,
}
use cache_server.Base.Int.{pos}
use cache_server.Text.{Bytes}
use cache_server.Options.{Start, exits, fault, run, then_start}

-- `req_msg`
pub record Message : Type 0 where
  pub shmid : ℕ
  pub segsize : ℕ
  pub path : Bytes

-- The size of `path` in a message.
abbrev pub max_path : ℕ
max_path = 200

-- `strcpy` needs room for the NUL; `sent` is whether `msgsnd` succeeds.
unfoldable pub request_cache : (path : Bytes) (shmid segsize : ℕ) (sent : Bool) → Start Message
request_cache path shmid segsize sent =
    if leb max_path (length path)
    then fault
    else if sent
    then run (record { shmid = shmid; segsize = segsize; path = path })
    else exits (pos 1)

pub record Sharing : Type 0 where
  pub free : List ℕ
  pub asking : List (ℕ × Bytes)
  pub messages : List Message
  pub serving : List ℕ
  pub attached : List ℕ
  pub lost : List ℕ

abbrev pub start_sharing : List ℕ → Sharing
start_sharing ids = record {
  free = ids;
  asking = [];
  messages = [];
  serving = [];
  attached = [];
  lost = [];
}

-- An item at an index, and the others.
abbrev pub take_at {ℓ} : {A : Type ℓ} → ℕ → List A → Option (A × List A)
take_at i [] = none
take_at zero (x ∷ xs) = some (x, xs)
take_at (suc i) (x ∷ xs) = elim (take_at i xs) [ none ↦ none | some (y, ys) ↦ some (y, x ∷ ys) ]

-- A handler is called for a path; the handler at an index sends its message; a worker of the cache process
-- takes a message; the handler at an index is done, or has failed to send; the worker at an index is done.
pub data Event : Type 0 where
  called : Bytes → Event
  requested : (handler : ℕ) (sent : Bool) → Event
  received : Event
  finished failed : (handler : ℕ) → Event
  detached : (worker : ℕ) → Event

-- `shm_pop`, which waits while no segment is free.
unfoldable pub pop_segment : Bytes → Sharing → Sharing
pop_segment path s = elim s.free [
  | [] ↦ s
  | shmid ∷ rest ↦ record s { free = rest; asking = s.asking ++ (shmid, path) ∷ [] }
]

-- The handler that is taken from those asking.
abbrev pub send_taken :
    (segsize : ℕ) → Bool → Sharing → Option ((ℕ × Bytes) × List (ℕ × Bytes)) → Start Sharing
send_taken segsize sent s none = run s
send_taken segsize sent s (some ((shmid, path), asking)) =
    then_start (request_cache path shmid segsize sent)
      λ msg. run (record s { asking = asking; messages = s.messages ++ msg ∷ [] })

unfoldable pub send_request : (segsize handler : ℕ) → Bool → Sharing → Start Sharing
unfolding request_cache
send_request segsize handler sent s = send_taken segsize sent s (take_at handler s.asking)

-- `msgrcv`; the worker attaches the segment.
unfoldable pub receive_request : Sharing → Sharing
receive_request s = elim s.messages [
  | [] ↦ s
  | msg ∷ rest ↦ record s {
    messages = rest;
    serving = s.serving ++ msg.shmid ∷ [];
    attached = s.attached ++ msg.shmid ∷ [];
  }
]

-- The last signal and `shmdt` of the worker at an index.
unfoldable pub detach_worker : (worker : ℕ) → Sharing → Sharing
detach_worker worker s = elim (take_at worker s.attached) [
  | none ↦ s
  | some (_, rest) ↦ record s { attached = rest }
]

-- `shm_push` at the end of `handle_with_cache`, whether or not the worker has detached the segment.
unfoldable pub push_segment : (handler : ℕ) → Sharing → Sharing
push_segment handler s = elim (take_at handler s.serving) [
  | none ↦ s
  | some (shmid, rest) ↦ record s { serving = rest; free = s.free ++ shmid ∷ [] }
]

-- `return SERVER_FAILURE`, with no `shm_push`.
unfoldable pub give_up : (handler : ℕ) → Sharing → Sharing
give_up handler s = elim (take_at handler s.serving) [
  | none ↦ s
  | some (shmid, rest) ↦ record s { serving = rest; lost = shmid ∷ s.lost }
]

unfoldable pub step : (segsize : ℕ) → Event → Sharing → Start Sharing
unfolding pop_segment send_request receive_request push_segment give_up detach_worker
step segsize (called path) s = run (pop_segment path s)
step segsize (requested handler sent) s = send_request segsize handler sent s
step segsize received s = run (receive_request s)
step segsize (finished handler) s = run (push_segment handler s)
step segsize (failed handler) s = run (give_up handler s)
step segsize (detached worker) s = run (detach_worker worker s)

unfoldable pub steps : (segsize : ℕ) → List Event → Sharing → Start Sharing
unfolding step
steps segsize [] s = run s
steps segsize (e ∷ es) s = then_start (step segsize e s) (steps segsize es)
