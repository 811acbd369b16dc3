-- ===== src/Steque/Trace.antt =====
-- gflib/steque.c: any sequence of calls, against a plain list. `fresh` counts the nodes that `malloc` has given.
pub mod Step
pub mod Run
use mathlib.Core.Path.{subst}
use cache_server.Base.{
  ℕ, zero, suc, ◌+◌, ◌≤◌, ◌<◌, ◌^◌, ◌≡◌, ◌≢◌, refl, sym, ap, ◌∙◌, Bool, true, false, Option, none,
  some, List, [], ◌∷◌, ◌++◌, arith, ◌==◌, ◌||◌, length, length-append, ==_iff, Option-cases, inl,
  inr,
}
use cache_server.Steque.{
  Ptr, null, Heap, Steque, Outcome, ok, fault, exits, out_of_fuel, steque_failure, Cmd, pure, ◌>>=◌,
  ◌>>◌, and_then, steque_init, steque_enqueue, steque_push, steque_pop, steque_cycle, steque_size,
  steque_isempty, steque_front,
}
use cache_server.Steque.Chain.{
  Cells, has, items, IsSteque, not-has_of_none, items-append, length-items,
}
use cache_server.Steque.Refine.{
  Returns, SameOutside, init-IsSteque, enqueue-IsSteque, push-IsSteque,
}
use cache_server.Steque.Front.{pop-IsSteque, observe-IsSteque, underflow_exits}
use cache_server.Steque.Cycle.{cycle-IsSteque}
use cache_server.Steque.Destroy.{inversion, isempty-nil}

module _ (A : Type 0) where
  pub data Call : Type 0 where
    enqueue push : A → Call
    pop cycle size isempty front : Call

  -- What a call returns.
  pub data Answer : Type 0 where
    done : Answer
    item : A → Answer
    count : ℕ → Answer
    empty : Bool → Answer

module _ {A : Type 0} where
  unfoldable pub call : Call A → (fresh : Ptr) → Cmd A (Answer A)
  call (enqueue v) fresh = do steque_enqueue fresh v; pure done
  call (push v) fresh = do steque_push fresh v; pure done
  call pop fresh = do v ← steque_pop; pure (item v)
  call cycle fresh = do steque_cycle; pure done
  call size fresh = do n ← steque_size; pure (count n)
  call isempty fresh = do b ← steque_isempty; pure (empty b)
  call front fresh = do v ← steque_front; pure (item v)

  unfoldable pub calls : List (Call A) → (fresh : Ptr) → Cmd A (List (Answer A))
  unfolding call
  calls [] fresh = pure []
  calls (c ∷ cs) fresh = do a ← call c fresh; more ← calls cs (fresh + 1); pure (a ∷ more)

  -- The same calls on a list; `none` ends the process with `STEQUE_FAILURE`.
  unfoldable pub list_call : Call A → List A → Option (Answer A × List A)
  list_call (enqueue v) xs = some (done, xs ++ v ∷ [])
  list_call (push v) xs = some (done, v ∷ xs)
  list_call pop [] = none
  list_call pop (x ∷ xs) = some (item x, xs)
  list_call cycle [] = some (done, [])
  list_call cycle (x ∷ xs) = some (done, xs ++ x ∷ [])
  list_call size xs = some (count (length xs), xs)
  list_call isempty [] = some (empty true, [])
  list_call isempty (x ∷ xs) = some (empty false, x ∷ xs)
  list_call front [] = none
  list_call front (x ∷ xs) = some (item x, x ∷ xs)

  -- An answer in front of those of the rest.
  abbrev pub prepend :
      Answer A → Option (List (Answer A) × List A) → Option (List (Answer A) × List A)
  prepend a none = none
  prepend a (some (more, zs)) = some (a ∷ more, zs)

  unfoldable pub list_calls : List (Call A) → List A → Option (List (Answer A) × List A)
  list_calls [] xs = some ([], xs)
  list_calls (c ∷ cs) xs = elim (list_call c xs) [
    | none ↦ none
    | some (a, ys) ↦ prepend a (list_calls cs ys)
  ]

  -- The steque stands for the list, and the nodes from `fresh` on have not been given out.
  abbrev pub Holds : (fresh : Ptr) → List A → Steque A → Type 0
  Holds fresh xs s =
      (cells : Cells A) × IsSteque s cells
      × (items cells ≡ xs)
      × ((p : Ptr) → fresh ≤ p → s.heap p ≡ none)

  -- An outcome is the one that the list has.
  abbrev pub Agrees : {B : Type 0} → (fresh : Ptr) → Option (B × List A) → Outcome A B → Type 0
  Agrees fresh none o = o ≡ exits steque_failure
  Agrees fresh (some (b, xs)) o = Returns o (λ b' s. (b' ≡ b) × Holds fresh xs s)
