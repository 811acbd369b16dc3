-- ===== src/Steque/Trace/Step.antt =====
-- gflib/steque.c: one call, against the call on a list.
use mathlib.Core.Path.{subst}
use cache_server.Base.{
  suc, ◌+◌, ◌≤◌, ◌<◌, ◌^◌, ◌≡◌, refl, sym, ap, ◌∙◌, true, false, none, [], ◌∷◌, ◌++◌, arith, ◌==◌,
  length, ==_iff,
}
use cache_server.Steque.{
  Ptr, null, Steque, ok, steque_enqueue, steque_push, steque_pop, steque_cycle, steque_size,
}
use cache_server.Steque.Chain.{
  Cells, has, items, IsSteque, not-has_of_none, items-append, length-items,
}
use cache_server.Steque.Refine.{SameOutside, enqueue-IsSteque, push-IsSteque}
use cache_server.Steque.Front.{pop-IsSteque, observe-IsSteque, underflow_exits}
use cache_server.Steque.Cycle.{cycle-IsSteque}
use cache_server.Steque.Destroy.{inversion, isempty-nil}
use cache_server.Steque.Trace.{
  Call, enqueue, push, pop, cycle, size, isempty, front, item, count, call, list_call, Agrees,
}

module _ {A : Type 0} where
  module _ (fresh : Ptr) (s : Steque A) (cells : Cells A) (is : IsSteque s cells)
      (free : (p : Ptr) → fresh ≤ p → s.heap p ≡ none) where
    -- A call that writes to the old nodes leaves those not given out alone.
    still_free :
        (t : Steque A)
        → SameOutside cells s.heap t.heap
        → (p : Ptr) → fresh + 1 ≤ p
        → t.heap p ≡ none
    still_free t same p le =
        let unused = free p (omega arith) in
        same p (not-has_of_none p cells s.heap is.linked unused) ∙ unused

    still_free-new :
        (t : Steque A) (v : A)
        → SameOutside ((fresh, v) ∷ cells) s.heap t.heap
        → (p : Ptr) → fresh + 1 ≤ p
        → t.heap p ≡ none
    still_free-new t v same p le =
        let unused = free p (omega arith) in
        let apart : (p == fresh) ≡ false = ground (arith, le) in
        same p (rw apart (not-has_of_none p cells s.heap is.linked unused)) ∙ unused

    -- A call that writes to the first of the old nodes only.
    still_free-head :
        (t : Steque A) (q : Ptr) (v : A) (rest : Cells A)
        → cells ≡ (q, v) ∷ rest
        → SameOutside ((q, v) ∷ []) s.heap t.heap
        → (p : Ptr) → fresh + 1 ≤ p
        → t.heap p ≡ none
    still_free-head t q v rest first same p le =
        let unused = free p (omega arith) in
        let out =
          subst (λ c. has p c ≡ false) first (not-has_of_none p cells s.heap is.linked unused) in
        same p (ground (arith, out)) ∙ unused

  cycle-nil : (s : Steque A) → IsSteque s [] → steque_cycle s ≡ ok tt s
  unfolding steque_cycle
  cycle-nil s is =
      let no_node : (s.back == null) ≡ true = (==_iff s.back null).1 (is.back) in
      rw (steque_cycle, no_node) refl

  pub call-Agrees :
      (c : Call A) (fresh : Ptr) (s : Steque A) (cells : Cells A)
      → IsSteque s cells
      → ((p : Ptr) → fresh ≤ p → s.heap p ≡ none)
      → 1 ≤ fresh
      → suc (length cells) < 2 ^ 31
      → Agrees (fresh + 1) (list_call c (items cells)) (call c fresh s)
  unfolding call list_call steque_size
  call-Agrees (enqueue v) fresh s cells is free real fits =
      let (_, t, e, (is', same)) = inversion (steque_enqueue fresh v s) _ (
        enqueue-IsSteque s cells fresh v is (λ h. ground (arith, h, real))
          (free fresh (omega arith)) fits) in
      rw e (
        refl,
        (
          cells ++ (fresh, v) ∷ [],
          is',
          items-append cells ((fresh, v) ∷ []),
          still_free-new fresh s cells is free t v same,
        ),
      )
  call-Agrees (push v) fresh s cells is free real fits =
      let (_, t, e, (is', same)) = inversion (steque_push fresh v s) _ (
        push-IsSteque s cells fresh v is (λ h. ground (arith, h, real)) (free fresh (omega arith))
          fits) in
      rw e (
        refl,
        (
          (fresh, v) ∷ cells,
          is',
          refl,
          λ p le.
              let unused = free p (omega arith) in
              let apart : (p == fresh) ≡ false = ground (arith, le) in
              same p (rw apart refl) ∙ unused,
        ),
      )
  call-Agrees pop fresh s [] is free real fits = rw ((underflow_exits s is).0) refl
  call-Agrees pop fresh s ((p, v) ∷ cells) is free real fits =
      let (r, t, e, (value, is', _, same)) =
        inversion (steque_pop s) _ (pop-IsSteque s p v cells is) in
      rw e (
        ap item value,
        (cells, is', refl, still_free-head fresh s ((p, v) ∷ cells) is free t p v cells refl same),
      )
  call-Agrees cycle fresh s [] is free real fits =
      rw (cycle-nil s is) (refl, ([], is, refl, λ p le. free p (omega arith)))
  call-Agrees cycle fresh s ((p, v) ∷ cells) is free real fits =
      let (_, t, e, (is', same)) = inversion (steque_cycle s) _ (cycle-IsSteque s p v cells is) in
      rw e (
        refl,
        (
          cells ++ (p, v) ∷ [],
          is',
          items-append cells ((p, v) ∷ []),
          still_free fresh s ((p, v) ∷ cells) is free t same,
        ),
      )
  call-Agrees size fresh s cells is free real fits = (
    ap count (is.count ∙ sym (length-items cells)),
    (cells, is, refl, λ p le. free p (omega arith)),
  )
  call-Agrees isempty fresh s [] is free real fits =
      rw (isempty-nil s is) (refl, ([], is, refl, λ p le. free p (omega arith)))
  call-Agrees isempty fresh s ((p, v) ∷ cells) is free real fits =
      rw ((observe-IsSteque s p v cells is).2)
        (refl, ((p, v) ∷ cells, is, refl, λ p le. free p (omega arith)))
  call-Agrees front fresh s [] is free real fits = rw ((underflow_exits s is).1) refl
  call-Agrees front fresh s ((p, v) ∷ cells) is free real fits =
      rw ((observe-IsSteque s p v cells is).0)
        (refl, ((p, v) ∷ cells, is, refl, λ p le. free p (omega arith)))
