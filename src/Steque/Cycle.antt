-- ===== src/Steque/Cycle.antt =====
-- gflib/steque.c: `steque_cycle` moves the front node behind the back one.
use cache_server.Base.{
  ℕ, ◌≡◌, ◌≢◌, refl, sym, false, Option, some, [], ◌∷◌, ◌++◌, arith, ◌==◌, length, length-append,
  ==_swap, ||_false,
}
use cache_server.Steque.{Ptr, null, Heap, Steque, Node, node, write, ok, steque_cycle}
use cache_server.Steque.Memory.{not_null, load-ok, set_next-ok}
use cache_server.Steque.Chain.{
  Cells, has, last_cell, IsSteque, Linked-frame, Linked-write, last-holds, last-ne, Linked-snoc,
  last_ptr-snoc,
}
use cache_server.Steque.Refine.{Returns, SameOutside, steque, of_cells}

module _ {A : Type 0} where
  cycle-one :
      (p : Ptr) (n : ℕ) (h : Heap A) (v : A)
      → p ≢ null
      → h p ≡ some (node v null)
      → steque_cycle (steque p p n h)
        ≡ ok tt (steque p p n (write (write h p (some (node v p))) p (some (node v null))))
  unfolding steque_cycle
  cycle-one p n h v real at =
      let g : Heap A = write h p (some (node v p)) in
      let at' : g p ≡ some (node v p) = ground arith in
      rw (
        not_null p real,
        set_next-ok (steque p p n h) p real (node v null) p at,
        load-ok (steque p p n g) p real (node v p) at',
        set_next-ok (steque p p n g) p real (node v p) null at',
      )

  cycle-two :
      (p b q : Ptr) (n : ℕ) (h : Heap A) (v w : A)
      → p ≢ null
      → b ≢ null
      → (p == b) ≡ false
      → h p ≡ some (node v q)
      → h b ≡ some (node w null)
      → steque_cycle (steque p b n h)
        ≡ ok tt (steque q p n (write (write h b (some (node w p))) p (some (node v null))))
  unfolding steque_cycle
  cycle-two p b q n h v w real real' apart at at' =
      let g : Heap A = write h b (some (node w p)) in
      let at'' : g p ≡ some (node v q) = rw apart at in
      rw (
        not_null b real',
        set_next-ok (steque p b n h) b real' (node w null) p at',
        load-ok (steque p p n g) p real (node v q) at'',
        set_next-ok (steque q p n g) p real (node v q) null at'',
      )

  -- Two writes at different addresses commute.
  write_comm :
      (h : Heap A) (p b a : Ptr) (m n : Option (Node A))
      → (b == p) ≡ false
      → write (write h b m) p n a ≡ write (write h p n) b m a
  write_comm h p b a m n apart = ground arith

  write-SameOutside :
      (h : Heap A) (c : Ptr × A) (xs : Cells A) (p : Ptr) (v : A) (m n : Option (Node A))
      → SameOutside ((p, v) ∷ c ∷ xs) h (write (write h (last_cell c xs).0 m) p n)
  write-SameOutside h c xs p v m n a out =
      let (ne, rest) = ||_false (a == p) (has a (c ∷ xs)) out in rw (last-ne a c xs rest, ne)

  -- Cycling rotates the list of a steque that is not empty by one: the front item becomes the last.
  pub cycle-IsSteque :
      (s : Steque A) (p : Ptr) (v : A) (xs : Cells A)
      → IsSteque s ((p, v) ∷ xs)
      → Returns
          (steque_cycle s)
          (λ _ t. IsSteque t (xs ++ (p, v) ∷ []) × SameOutside ((p, v) ∷ xs) s.heap t.heap)
  cycle-IsSteque s p v [] is =
      let (ne, out, at, l) = is.linked in
      rw (of_cells s ((p, v) ∷ []) is) (rw (cycle-one p 1 s.heap v ne at) (ground arith))
  cycle-IsSteque s p v (c ∷ xs) is =
      let (ne, out, at, l) = is.linked in
      let b = last_cell c xs in
      let (at', real) = last-holds c xs s.heap l in
      let apart = last-ne p c xs out in
      let n = length ((p, v) ∷ c ∷ xs) in
      let h' : Heap A = write s.heap p (some (node v null)) in
      let l' = Linked-write (c ∷ xs) s.heap p (some (node v null)) l out in
      rw (of_cells s ((p, v) ∷ c ∷ xs) is) (
        rw (cycle-two p b.0 c.0 n s.heap v b.1 ne real apart at at') (
          record {
            linked =
                Linked-frame ((c ∷ xs) ++ (p, v) ∷ [])
                  (Linked-snoc c xs h' p v l' ne out (ground arith))
                  (λ a i. write_comm s.heap p b.0 a _ _ (==_swap p b.0 apart));
            front = refl;
            back = sym (last_ptr-snoc (c ∷ xs) (p, v));
            count = omega (arith, length-append (c ∷ xs) ((p, v) ∷ []));
            small = omega (arith, is.small, length-append (c ∷ xs) ((p, v) ∷ []));
          },
          write-SameOutside s.heap c xs p v _ _,
        ))
