-- ===== src/Steque/Refine.antt =====
-- gflib/steque.c: `steque_init`, `steque_enqueue` and `steque_push` against the list of items that a
-- steque stands for.
use cache_server.Base.{
  ℕ, suc, ◌<◌, ◌^◌, ◌≡◌, ◌≢◌, refl, sym, false, Option, none, some, [], ◌∷◌, ◌++◌, arith, ◌==◌, ap,
  ==_swap, ||_false, if◌then◌else◌, Bool-cases, inl, inr, length, length-append,
}
use cache_server.Steque.{
  Ptr, null, Heap, Steque, Node, node, write, Outcome, ok, steque_init, steque_enqueue, steque_push,
}
use cache_server.Steque.Memory.{not_null, new_node-ok, set_next-ok}
use cache_server.Steque.Chain.{
  Cells, has, head_ptr, last_cell, last_ptr, IsSteque, Linked-write, last-holds, last-ne,
  not-has_of_none, Linked-snoc, last_ptr-snoc,
}

-- The outcome is normal, with a result and a state that satisfy `P`.
abbrev pub Returns : {A B : Type 0} → Outcome A B → (B → Steque A → Type 0) → Type 0
Returns (ok b s) P = P b s
Returns _ P = ⊥

module _ {A : Type 0} where
  -- No address outside the steque's old and new cells changes.
  abbrev pub SameOutside : Cells A → Heap A → Heap A → Type 0
  SameOutside xs h g = (a : Ptr) → has a xs ≡ false → g a ≡ h a

  abbrev pub steque : Ptr → Ptr → ℕ → Heap A → Steque A
  steque f b n h = record { front = f; back = b; count = n; heap = h }

  -- Initialising makes the empty steque, and leaves the heap alone.
  pub init-IsSteque :
      (s : Steque A) → Returns (steque_init s) (λ _ t. IsSteque t [] × (t.heap ≡ s.heap))
  unfolding steque_init
  init-IsSteque s = (omega arith, refl)

  -- Enqueueing on an empty steque makes the new node its front and back.
  enqueue-nil :
      (h : Heap A) (fresh : Ptr) (v : A)
      → fresh ≢ null
      → steque_enqueue fresh v (steque null null 0 h)
        ≡ ok tt (steque fresh fresh 1 (write h fresh (some (node v null))))
  unfolding steque_enqueue
  enqueue-nil h fresh v ne = rw (new_node-ok (steque null null 0 h) fresh ne v null)

  enqueue-cons :
      (f b : Ptr) (n : ℕ) (h : Heap A) (w : A) (fresh : Ptr) (v : A)
      → b ≢ null
      → fresh ≢ null
      → (b == fresh) ≡ false
      → h b ≡ some (node w null)
      → suc n < 2 ^ 31
      → steque_enqueue fresh v (steque f b n h)
        ≡ ok tt (
            steque f fresh
              (suc n)
              (write (write h fresh (some (node v null))) b (some (node w fresh))))
  unfolding steque_enqueue
  enqueue-cons f b n h w fresh v real ne apart at fits =
      rw
        (
          new_node-ok (steque f b n h) fresh ne v null,
          not_null b real,
          set_next-ok (steque f b n (write h fresh (some (node v null)))) b real (node w null) fresh
              (rw apart at),
        )
        (ap
          (λ k.
            ok tt (
              steque f fresh k
                (write (write h fresh (some (node v null))) b (some (node w fresh)))))
          (omega arith))

  push-front :
      (f b : Ptr) (n : ℕ) (h : Heap A) (fresh : Ptr) (v : A)
      → fresh ≢ null
      → suc n < 2 ^ 31
      → steque_push fresh v (steque f b n h)
        ≡ ok tt (
            steque fresh (if b == null then fresh else b) (suc n) (write h fresh (some (node v f))))
  unfolding steque_push
  push-front f b n h fresh v ne fits =
      rw (new_node-ok (steque f b n h) fresh ne v f) (elim (Bool-cases (b == null)) [
        | inl e ↦
            rw e (
              ap (λ k. ok tt (steque fresh fresh k (write h fresh (some (node v f)))))
                (omega arith))
        | inr e ↦
            rw e
              (ap (λ k. ok tt (steque fresh b k (write h fresh (some (node v f))))) (omega arith))
      ])

  -- The struct is determined by the cells.
  pub of_cells :
      (s : Steque A) (xs : Cells A)
      → IsSteque s xs
      → s ≡ steque (head_ptr xs) (last_ptr xs) (length xs) s.heap
  of_cells s xs is = ground arith

  not-has_fresh :
      (s : Steque A) (xs : Cells A) (fresh : Ptr)
      → IsSteque s xs
      → s.heap fresh ≡ none
      → has fresh xs ≡ false
  not-has_fresh s xs fresh is unused = not-has_of_none fresh xs s.heap is.linked unused

  write-SameOutside :
      (h : Heap A) (c : Ptr × A) (xs : Cells A) (p : Ptr) (m n : Option (Node A)) (v : A)
      → SameOutside ((p, v) ∷ c ∷ xs) h (write (write h p m) (last_cell c xs).0 n)
  write-SameOutside h c xs p m n v a out =
      let (ne, rest) = ||_false (a == p) (has a (c ∷ xs)) out in rw (last-ne a c xs rest, ne)

  -- With a new node and fewer than 2^31 items, enqueueing appends the item to the list and writes
  -- nowhere but to the steque's nodes.
  pub enqueue-IsSteque :
      (s : Steque A) (xs : Cells A) (fresh : Ptr) (v : A)
      → IsSteque s xs
      → fresh ≢ null
      → s.heap fresh ≡ none
      → suc (length xs) < 2 ^ 31
      → Returns
          (steque_enqueue fresh v s)
          (λ _ t. IsSteque t (xs ++ (fresh, v) ∷ []) × SameOutside ((fresh, v) ∷ xs) s.heap t.heap)
  enqueue-IsSteque s [] fresh v is ne unused fits =
      rw (of_cells s [] is) (rw (enqueue-nil s.heap fresh v ne) (ground arith))
  enqueue-IsSteque s (c ∷ xs) fresh v is ne unused fits =
      let l = is.linked in
      let b = last_cell c xs in
      let (at, real) = last-holds c xs s.heap l in
      let new = not-has_fresh s (c ∷ xs) fresh is unused in
      let h' : Heap A = write s.heap fresh (some (node v null)) in
      let apart : (b.0 == fresh) ≡ false = ==_swap fresh b.0 (last-ne fresh c xs new) in
      rw (of_cells s (c ∷ xs) is) (
        rw
          (enqueue-cons (head_ptr (c ∷ xs)) b.0 (length (c ∷ xs)) s.heap b.1 fresh v real ne apart
            at fits)
          (
            record {
              linked =
                  Linked-snoc c xs h' fresh v (Linked-write (c ∷ xs) s.heap fresh _ l new) ne new
                    (ground arith);
              front = refl;
              back = sym (last_ptr-snoc (c ∷ xs) (fresh, v));
              count = omega (arith, length-append (c ∷ xs) ((fresh, v) ∷ []));
              small = omega (arith, length-append (c ∷ xs) ((fresh, v) ∷ []));
            },
            write-SameOutside s.heap c xs fresh _ _ v,
          ))

  -- With a new node and fewer than 2^31 items, pushing puts the item in front of the list and
  -- writes nowhere but to the new node.
  pub push-IsSteque :
      (s : Steque A) (xs : Cells A) (fresh : Ptr) (v : A)
      → IsSteque s xs
      → fresh ≢ null
      → s.heap fresh ≡ none
      → suc (length xs) < 2 ^ 31
      → Returns
          (steque_push fresh v s)
          (λ _ t. IsSteque t ((fresh, v) ∷ xs) × SameOutside ((fresh, v) ∷ []) s.heap t.heap)
  push-IsSteque s [] fresh v is ne unused fits =
      rw (of_cells s [] is) (rw (push-front null null 0 s.heap fresh v ne fits) (ground arith))
  push-IsSteque s (c ∷ xs) fresh v is ne unused fits =
      let l = is.linked in
      let b = last_cell c xs in
      let (at, real) = last-holds c xs s.heap l in
      let new = not-has_fresh s (c ∷ xs) fresh is unused in
      rw (of_cells s (c ∷ xs) is) (
        rw
          (
            push-front (head_ptr (c ∷ xs)) b.0 (length (c ∷ xs)) s.heap fresh v ne fits,
            not_null b.0 real,
          )
          (
            record {
              linked = (ne, new, ground arith, Linked-write (c ∷ xs) s.heap fresh _ l new);
              front = refl;
              back = refl;
              count = refl;
              small = fits;
            },
            ground arith,
          ))
