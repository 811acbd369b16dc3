-- ===== src/Pool.antt =====
-- cache/handle_with_cache.c: the queue of free shared memory segments, over the steque of
-- gflib/steque.c. `shm_push` and `shm_pop` run inside the mutex `m`. The cell that holds a segment's
-- id is freed as soon as it is read, so an item of the steque is the id.
pub mod Segments
pub mod Sharing
pub mod Ownership
pub mod Exhausted
pub mod Paths
mod Examples
use cache_server.Base.{
  ℕ, zero, suc, ◌+◌, Bool, true, false, Option, none, some, List, [], ◌∷◌, ◌++◌,
}
use cache_server.Base.Int.{ℤ, pos, negsuc}
use cache_server.Options.{Start, run}
use cache_server.Steque.{
  Ptr, Steque, Outcome, ok, fault, exits, out_of_fuel, Cmd, pure, ◌>>=◌, ◌>>◌, steque_init,
  steque_enqueue, steque_size, steque_pop, steque_destroy,
}

unfoldable pub shm_push : Ptr → ℕ → Cmd ℕ (Unit {0})
shm_push fresh shmid = steque_enqueue fresh shmid

-- `none` while the caller waits for `shm_available`.
pub shm_pop : Cmd ℕ (Option ℕ)
shm_pop = do
  size ← steque_size
  elim size [ zero ↦ pure none | suc _ ↦ do shmid ← steque_pop; pure (some shmid) ]

-- The loop of `init_cache_handlers`: `segment i` is the id that `shmget` gives for file `i`, or `none` if
-- `open`, `ftok` or `shmget` fails; `fresh i` is the node that `malloc` gives.
unfoldable pub init_loop :
    (segment : ℕ → Option ℕ) (fresh : ℕ → Ptr) (nsegments i : ℕ) → Cmd ℕ (Unit {0})
unfolding shm_push
init_loop segment fresh zero i = pure tt
init_loop segment fresh (suc n) i = elim (segment i) [
  | none ↦ λ _. exits (pos 1)
  | some shmid ↦ do shm_push (fresh i) shmid; init_loop segment fresh n (i + 1)
]

-- The rounds of `for(int i = 0; i < nsegments; i++)`.
abbrev pub rounds : ℤ → ℕ
rounds (pos n) = n
rounds (negsuc _) = 0

-- `ftok` gives the key, and `msgget` the queue for it, if they succeed.
unfoldable pub getmsqid : (ftok : Option ℕ) (msgget : ℕ → Option ℕ) → Start ℕ
getmsqid none msgget = Start.exits (pos 1)
getmsqid (some key) msgget = elim (msgget key) [
  | none ↦ Start.exits (pos 1)
  | some msqid ↦ run msqid
]

abbrev pub after_start : {A B : Type 0} → Start A → (A → Cmd ℕ B) → Cmd ℕ B
after_start (Start.exits code) next = λ _. exits code
after_start Start.fault next = λ _. fault
after_start (run a) next = next a

-- The result is the static `msqid`.
unfoldable pub init_cache_handlers :
    (ftok : Option ℕ) (msgget : ℕ → Option ℕ) (segment : ℕ → Option ℕ) (fresh : ℕ → Ptr)
    (nsegments : ℕ)
    → Cmd ℕ ℕ
unfolding init_loop getmsqid
init_cache_handlers ftok msgget segment fresh nsegments =
    after_start (getmsqid ftok msgget)
      λ msqid. do steque_init; init_loop segment fresh nsegments 0; pure msqid

-- The loop of `clean_cache_handlers`: the ids removed by `shmctl`, in order. An `shm_pop` that waits
-- would wait for ever; the loop's test excludes it.
pub clean_loop : (fuel : ℕ) → Cmd ℕ (List ℕ)
unfolding shm_pop
clean_loop zero = λ _. out_of_fuel
clean_loop (suc fuel) = do
  size ← steque_size
  elim size [
    | zero ↦ pure []
    | suc _ ↦ do
      found ← shm_pop
      elim found [
        | none ↦ λ _. out_of_fuel
        | some shmid ↦ do rest ← clean_loop fuel; pure (shmid ∷ rest)
      ]
  ]

-- `msqid`, -1 if there is no message queue: `destroy_msg` of it, and the reset. The first component
-- has the queues removed.
abbrev pub remove_queue : ℤ → List ℤ × ℤ
remove_queue (negsuc zero) = ([], negsuc zero)
remove_queue msqid = (msqid ∷ [], negsuc zero)

-- What is removed, and `msqid` after that.
pub record Cleaned : Type 0 where
  pub queues : List ℤ
  pub segments : List ℕ
  pub msqid : ℤ

pub clean_cache_handlers : (fuel : ℕ) (msqid : ℤ) → Cmd ℕ Cleaned
unfolding clean_loop
clean_cache_handlers fuel msqid = do
  ids ← clean_loop fuel
  steque_destroy fuel
  pure (record { queues = (remove_queue msqid).0; segments = ids; msqid = (remove_queue msqid).1 })
