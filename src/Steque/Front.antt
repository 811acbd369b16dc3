-- ===== src/Steque/Front.antt =====
-- gflib/steque.c: `steque_pop`, `steque_front`, `steque_size` and `steque_isempty` against the list of
-- items that a steque stands for.
use cache_server.Base.{
  ℕ, suc, ◌<◌, ◌^◌, ◌≡◌, ◌≢◌, refl, false, none, some, [], ◌∷◌, arith, ◌==◌, ap, ◌∙◌, if◌then◌else◌,
  Bool-cases, inl, inr, length,
}
use cache_server.Steque.{
  Ptr, null, Heap, Steque, node, write, ok, exits, steque_failure, steque_pop, steque_front,
  steque_size, steque_isempty,
}
use cache_server.Steque.Memory.{not_null, load-ok, free-ok}
use cache_server.Steque.Chain.{Cells, head_ptr, last_cell, last_ptr, IsSteque, Linked-write}
use cache_server.Steque.Refine.{Returns, SameOutside, steque, of_cells}

module _ {A : Type 0} where
  pop-front :
      (f b : Ptr) (n : ℕ) (h : Heap A) (v : A) (q : Ptr)
      → f ≢ null
      → h f ≡ some (node v q)
      → suc n < 2 ^ 31
      → steque_pop (steque f b (suc n) h)
        ≡ ok v (steque q (if q == null then null else b) n (write h f none))
  unfolding steque_pop
  pop-front f b n h v q real at fits =
      rw (not_null f real, load-ok (steque f b (suc n) h) f real (node v q) at)
        (elim (Bool-cases (q == null)) [
          | inl e ↦
              rw (e, free-ok (steque q null (suc n) h) f real (node v q) at)
                (ap (λ k. ok v (steque q null k (write h f none))) (omega arith))
          | inr e ↦
              rw (e, free-ok (steque q b (suc n) h) f real (node v q) at)
                (ap (λ k. ok v (steque q b k (write h f none))) (omega arith))
        ])

  -- Popping takes the item in front, frees its node, and leaves the rest; nothing else changes.
  pub pop-IsSteque :
      (s : Steque A) (p : Ptr) (v : A) (xs : Cells A)
      → IsSteque s ((p, v) ∷ xs)
      → Returns (steque_pop s) (λ r t.
        (r ≡ v) × IsSteque t xs × (t.heap p ≡ none) × SameOutside ((p, v) ∷ []) s.heap t.heap)
  pop-IsSteque s p v [] is =
      let (ne, out, at, l) = is.linked in
      rw (of_cells s ((p, v) ∷ []) is)
        (rw (pop-front p p 0 s.heap v null ne at (is.small)) (ground arith))
  pop-IsSteque s p v (c ∷ xs) is =
      let (ne, out, at, l) = is.linked in
      rw (of_cells s ((p, v) ∷ c ∷ xs) is) (
        rw
          (
            pop-front p (last_cell c xs).0 (length (c ∷ xs)) s.heap v c.0 ne at is.small,
            not_null c.0 l.0,
          )
          (
            refl,
            record {
              linked = Linked-write (c ∷ xs) s.heap p none l out;
              front = refl;
              back = refl;
              count = refl;
              small = omega (arith, is.small);
            },
            ground arith,
            ground arith,
          ))

  -- On an empty steque popping and looking at the front end the process with `STEQUE_FAILURE`.
  pub underflow_exits :
      (s : Steque A)
      → IsSteque s []
      → (steque_pop s ≡ exits steque_failure) × (steque_front s ≡ exits steque_failure)
  unfolding steque_pop steque_front
  underflow_exits s is = (rw (is.front), rw (is.front))

  front-front :
      (f b : Ptr) (n : ℕ) (h : Heap A) (v : A) (q : Ptr)
      → f ≢ null
      → h f ≡ some (node v q)
      → steque_front (steque f b n h) ≡ ok v (steque f b n h)
  unfolding steque_front
  front-front f b n h v q real at =
      rw (not_null f real, load-ok (steque f b n h) f real (node v q) at)

  size-count :
      (f b : Ptr) (n : ℕ) (h : Heap A)
      → (steque_size (steque f b n h) ≡ ok n (steque f b n h))
        × (steque_isempty (steque f b n h) ≡ ok (n == 0) (steque f b n h))
  unfolding steque_size steque_isempty
  size-count f b n h = (refl, refl)

  -- On a steque that is not empty the front is read without a change, and the size and the emptiness test are those of the list.
  pub observe-IsSteque :
      (s : Steque A) (p : Ptr) (v : A) (xs : Cells A)
      → IsSteque s ((p, v) ∷ xs)
      → (steque_front s ≡ ok v s)
        × (steque_size s ≡ ok (suc (length xs)) s)
        × (steque_isempty s ≡ ok false s)
  observe-IsSteque s p v xs is =
      let (ne, out, at, l) = is.linked in
      let b = last_ptr ((p, v) ∷ xs) in
      let n = length ((p, v) ∷ xs) in
      let (size, empty) = size-count p b n s.heap in
      rw (of_cells s ((p, v) ∷ xs) is) (
        front-front p b n s.heap v (head_ptr xs) ne at,
        size,
        empty ∙ ap (λ e. ok e (steque p b n s.heap)) (ground arith),
      )
