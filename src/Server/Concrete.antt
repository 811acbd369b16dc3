-- ===== src/Server/Concrete.antt =====
-- gflib/gfserver.c: the queue of requests as the steque that the code keeps, against the list in `Server`.
use cache_server.Base.{
  ℕ, zero, suc, ◌+◌, ◌^◌, ◌<◌, ◌≡◌, ◌≢◌, refl, sym, ap, ◌∙◌, true, false, Option, none, some, List,
  [], ◌∷◌, ◌++◌, append_assoc, append-nil, length, arith,
}
use cache_server.Steque.{
  Ptr, null, Steque, out_of_fuel, Cmd, pure, ◌>>=◌, steque_enqueue, steque_isempty, steque_size,
  steque_pop,
}
use cache_server.Steque.Chain.{Cells, items, IsSteque, items-append, length-items}
use cache_server.Steque.Refine.{Returns, enqueue-IsSteque}
use cache_server.Steque.Front.{pop-IsSteque, observe-IsSteque}
use cache_server.Steque.Destroy.{inversion, mono, isempty-nil, size-nil}
use cache_server.Server.{Task, Server, add_task, take_task, stop_loop, gfserver_stop}

-- `steque_enqueue` in `add_task`.
pub queue_task : (fresh : Ptr) → Task → Cmd Task (Unit {0})
queue_task fresh t = steque_enqueue fresh t

-- The test and the `steque_pop` of `thread`; `none` while the worker waits.
pub next_task : Cmd Task (Option Task)
next_task = do
  empty ← steque_isempty
  elim empty [ true ↦ pure none | false ↦ do t ← steque_pop; pure (some t) ]

-- The loop of `gfserver_stop`, with the connections that it closes.
pub drain : (fuel : ℕ) → Cmd Task (List ℕ)
drain zero = λ _. out_of_fuel
drain (suc fuel) = do
  size ← steque_size
  elim size [ zero ↦ pure [] | suc _ ↦ do t ← steque_pop; rest ← drain fuel; pure (t.ctx ∷ rest) ]

abbrev pub Represents : Steque Task → List Task → Type 0
Represents st queue = (cells : Cells Task) × IsSteque st cells × (items cells ≡ queue)

abbrev pub first : List Task → Option Task
first [] = none
first (t ∷ _) = some t

abbrev pub rest_of : List Task → List Task
rest_of [] = []
rest_of (_ ∷ queue) = queue

abbrev pub contexts : List Task → List ℕ
contexts [] = []
contexts (t ∷ queue) = t.ctx ∷ contexts queue

next_task-first :
    (st : Steque Task) (cells : Cells Task)
    → IsSteque st cells
    → Returns
        (next_task st)
        (λ found u. (found ≡ first (items cells)) × Represents u (rest_of (items cells)))
unfolding next_task
next_task-first st [] is = rw (isempty-nil st is) (refl, ([], is, refl))
next_task-first st ((p, t) ∷ cells) is =
    let (_, u, e, (same, is', _, _)) = inversion (steque_pop st) _ (pop-IsSteque st p t cells is) in
    rw ((observe-IsSteque st p t cells is).2, e) (ap some same, (cells, is', refl))

pub drain-contexts :
    (fuel : ℕ) (st : Steque Task) (cells : Cells Task)
    → IsSteque st cells
    → length cells < fuel
    → Returns (drain fuel st) (λ ctxs u. (ctxs ≡ contexts (items cells)) × Represents u [])
unfolding drain
drain-contexts zero st cells is lt = absurd (omega arith)
drain-contexts (suc fuel) st [] is lt = rw (size-nil st is) (refl, ([], is, refl))
drain-contexts (suc fuel) st ((p, t) ∷ cells) is lt =
    let (_, u, e, (same, is', _, _)) = inversion (steque_pop st) _ (pop-IsSteque st p t cells is) in
    let (ctxs, v, e', (closes, left)) =
      inversion (drain fuel u) _ (drain-contexts fuel u cells is' (omega arith)) in
    rw ((observe-IsSteque st p t cells is).1, e, e') ((λ i. (same i).ctx ∷ closes i), left)

stop_loop-contexts :
    (queue : List Task) (closed : List ℕ) → stop_loop queue closed ≡ closed ++ contexts queue
unfolding stop_loop
stop_loop-contexts [] closed = sym (append-nil closed)
stop_loop-contexts (t ∷ queue) closed =
    stop_loop-contexts queue (closed ++ t.ctx ∷ [])
    ∙ append_assoc closed (t.ctx ∷ []) (contexts queue)

take_task-rest_of : (s s' : Server) → take_task s ≡ some s' → s'.queue ≡ rest_of s.queue
unfolding take_task
take_task-rest_of s s' e = ground (arith, e)

-- The steque of `gflib/steque.c`, used as the workers and the accepting thread use it, holds the queue of the
-- server's model: on a steque that represents the queue, enqueueing at an unused address gives one that represents the
-- queue after `add_task`, if it has fewer than `2 ^ 31` items; what a worker takes is the first task of the
-- queue, or nothing, as in `take_task`; and the loop of `gfserver_stop` ends within one round more
-- than there are tasks, having closed the connections that the model closes. None of these faults.
pub refines :
    (s s' : Server) (t : Task) (fresh : Ptr) (st : Steque Task)
    → Represents st s.queue
    → fresh ≢ null
    → st.heap fresh ≡ none
    → suc (length s.queue) < 2 ^ 31
    → take_task s ≡ some s'
    → Returns (queue_task fresh t st) (λ _ u. Represents u (add_task t s).queue)
      × Returns (next_task st) (λ found u. (found ≡ first s.queue) × Represents u s'.queue)
      × Returns (drain (length s.queue + 1) st) (λ closes u.
        ((gfserver_stop s).closed ≡ s.closed ++ closes) × Represents u (gfserver_stop s).queue)
unfolding queue_task add_task gfserver_stop
refines s s' t fresh st (cells, is, holds) real unused fits taken =
    let size : length cells ≡ length s.queue = sym (length-items cells) ∙ ap length holds in
    (
      mono (queue_task fresh t st) _ _
          (enqueue-IsSteque st cells fresh t is real unused (omega (arith, size, fits)))
          λ _ u (is', _). (
            cells ++ (fresh, t) ∷ [],
            is',
            items-append cells ((fresh, t) ∷ []) ∙ ap (λ q. q ++ t ∷ []) holds,
          ),
      mono (next_task st) _ _ (next_task-first st cells is) λ found u (same, (left, is', rest)). (
        same ∙ ap first holds,
        (left, is', rest ∙ ap rest_of holds ∙ sym (take_task-rest_of s s' taken)),
      ),
      mono (drain (length s.queue + 1) st) _ _
          (drain-contexts (length s.queue + 1) st cells is (omega (arith, size)))
          λ closes u (same, left). (
            stop_loop-contexts s.queue s.closed
                ∙ ap (λ q. s.closed ++ contexts q) (sym holds)
                ∙ ap (λ c. s.closed ++ c) (sym same),
            left,
          ),
    )
