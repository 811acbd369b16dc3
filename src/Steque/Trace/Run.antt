-- ===== src/Steque/Trace/Run.antt =====
-- gflib/steque.c: a sequence of calls, against those on a list.
use mathlib.Core.Path.{subst}
use cache_server.Base.{
  suc, ◌+◌, ◌≤◌, ◌<◌, ◌^◌, ◌≡◌, refl, sym, ap, ◌∙◌, Option, none, some, List, [], ◌∷◌, arith,
  length, length-append, Option-cases, inl, inr,
}
use cache_server.Steque.{Ptr, Heap, Steque, Outcome, pure, ◌>>◌, and_then, steque_init}
use cache_server.Steque.Chain.{length-items}
use cache_server.Steque.Refine.{init-IsSteque}
use cache_server.Steque.Destroy.{inversion}
use cache_server.Steque.Trace.{
  Call, Answer, enqueue, push, pop, cycle, size, isempty, front, call, calls, list_call, prepend,
  list_calls, Holds, Agrees,
}
use cache_server.Steque.Trace.Step.{call-Agrees}

module _ {A : Type 0} where
  Agrees-cons :
      (n m : Ptr)
      → n ≤ m
      → (a b : Answer A) → b ≡ a
      → (spec : Option (List (Answer A) × List A)) (o : Outcome A (List (Answer A)))
      → Agrees n spec o
      → Agrees m (prepend a spec) (and_then o (λ more. pure (b ∷ more)))
  Agrees-cons n m le a b same none o h = rw h refl
  Agrees-cons n m le a b same (some (more, zs)) o h =
      let (more', t, e, (equal, (cells, is, stands, free))) = inversion o _ h in
      rw e ((λ i. same i ∷ equal i), (cells, is, stands, λ p le'. free p (omega arith)))

  length-list_call :
      (c : Call A) (xs ys : List A) (a : Answer A)
      → list_call c xs ≡ some (a, ys)
      → length ys ≤ suc (length xs)
  unfolding list_call
  length-list_call (enqueue v) xs ys a e = ground (arith, e, length-append xs (v ∷ []))
  length-list_call (push v) xs ys a e = ground (arith, e)
  length-list_call pop [] ys a e = ground (arith, e)
  length-list_call pop (x ∷ xs) ys a e = ground (arith, e)
  length-list_call cycle [] ys a e = ground (arith, e)
  length-list_call cycle (x ∷ xs) ys a e = ground (arith, e, length-append xs (x ∷ []))
  length-list_call size xs ys a e = ground (arith, e)
  length-list_call isempty [] ys a e = ground (arith, e)
  length-list_call isempty (x ∷ xs) ys a e = ground (arith, e)
  length-list_call front [] ys a e = ground (arith, e)
  length-list_call front (x ∷ xs) ys a e = ground (arith, e)

  calls-Agrees :
      (cs : List (Call A)) (fresh : Ptr) (s : Steque A) (xs : List A)
      → Holds fresh xs s
      → 1 ≤ fresh
      → length xs + length cs < 2 ^ 31
      → Agrees (fresh + length cs) (list_calls cs xs) (calls cs fresh s)
  unfolding calls list_calls
  calls-Agrees [] fresh s xs (cells, is, same, free) real fits =
      (refl, (cells, is, same, λ p le. free p (omega arith)))
  calls-Agrees (c ∷ cs) fresh s xs (cells, is, same, free) real fits =
      let count : length cells ≡ length xs = sym (length-items cells) ∙ ap length same in
      let step =
        subst (λ ys. Agrees (fresh + 1) (list_call c ys) (call c fresh s)) same
          (call-Agrees c fresh s cells is free real (omega (arith, count))) in
      elim (Option-cases (list_call c xs)) [
        | inl stops ↦
            let ends = subst (λ o. Agrees (fresh + 1) o (call c fresh s)) stops step in
            rw (list_calls, stops, ends) refl
        | inr ((a, ys), goes) ↦
            let (b, t, e, (answer, holds)) =
              inversion (call c fresh s) _
                (subst (λ o. Agrees (fresh + 1) o (call c fresh s)) goes step) in
            let rest =
              calls-Agrees cs (fresh + 1) t ys holds (omega arith)
                (omega (arith, length-list_call c xs ys a goes)) in
            rw (list_calls, goes, e)
              (Agrees-cons (fresh + 1 + length cs) (fresh + suc (length cs)) (omega arith) a b
                answer (list_calls cs ys) (calls cs (fresh + 1) t) rest)
      ]

  -- After `steque_init`, any sequence of fewer than 2^31 calls, with a new node from `malloc` for
  -- each, has the outcome that it has on a plain list: the same answers in order, and a steque
  -- that stands for the same list; or it ends the process with `STEQUE_FAILURE` where the list is
  -- empty and an item is asked for. No call faults.
  pub trace-Agrees :
      (cs : List (Call A)) (fresh : Ptr) (s : Steque A)
      → ((p : Ptr) → fresh ≤ p → s.heap p ≡ none)
      → 1 ≤ fresh
      → length cs < 2 ^ 31
      → Agrees (fresh + length cs) (list_calls cs []) ((steque_init >> calls cs fresh) s)
  trace-Agrees cs fresh s free real fits =
      let (_, t, e, (is, heap)) = inversion (steque_init s) _ (init-IsSteque s) in
      rw e (
        calls-Agrees cs fresh t [] ([], is, refl, λ p le. ap (λ (h : Heap A). h p) heap ∙ free p le)
          real (omega (arith, fits)))
