-- ===== src/Steque/Chain.antt =====
-- gflib/steque.c: what a steque stands for. Its nodes, in order, are cells: address and item.
-- Every cell holds its item and the address of the next cell, the last one `NULL`.
use cache_server.Base.{
  ◌<◌, ◌^◌, ◌≡◌, ◌≢◌, refl, Bool, true, false, ◌||◌, Option, none, some, List, [], ◌∷◌, ◌++◌, arith,
  ◌==◌, length, Bool-cases, ==_iff, ap, inl, inr,
}
use cache_server.Steque.{Ptr, null, Heap, Steque, Node, node, write}

module _ (A : Type 0) where
  abbrev pub Cells : Type 0
  Cells = List (Ptr × A)

module _ {A : Type 0} where
  abbrev pub has : Ptr → Cells A → Bool
  has a [] = false
  has a ((p, _) ∷ xs) = (a == p) || has a xs

  abbrev pub head_ptr : Cells A → Ptr
  head_ptr [] = null
  head_ptr ((p, _) ∷ _) = p

  -- The last of a cell and the cells behind it.
  abbrev pub last_cell : Ptr × A → Cells A → Ptr × A
  last_cell c [] = c
  last_cell c (d ∷ xs) = last_cell d xs

  abbrev pub last_ptr : Cells A → Ptr
  last_ptr [] = null
  last_ptr (c ∷ xs) = (last_cell c xs).0

  abbrev pub items : Cells A → List A
  items [] = []
  items ((_, v) ∷ xs) = v ∷ items xs

  -- The cells are distinct nodes of the heap, each linked to the next, the last one to `NULL`.
  abbrev pub Linked : Heap A → Cells A → Type 0
  Linked h [] = Unit
  Linked h ((a, v) ∷ xs) =
      (a ≢ null) × (has a xs ≡ false) × (h a ≡ some (node v (head_ptr xs))) × Linked h xs

  -- `s` is a well-formed steque with these cells.
  pub record IsSteque (s : Steque A) (xs : Cells A) : Type 0 where
    pub linked : Linked s.heap xs
    pub front : s.front ≡ head_ptr xs
    pub back : s.back ≡ last_ptr xs
    pub count : s.count ≡ length xs
    pub small : length xs < 2 ^ 31

  -- A chain survives any change of the heap at other addresses.
  pub Linked-frame :
      (xs : Cells A) {g h : Heap A}
      → Linked h xs
      → ((a : Ptr) → has a xs ≡ true → g a ≡ h a)
      → Linked g xs
  Linked-frame [] l same = tt
  Linked-frame ((a, v) ∷ xs) (ne, out, e, l) same =
      (ne, out, ground (arith, same a), Linked-frame xs l (λ b i. same b (ground arith)))

  pub Linked-write :
      (xs : Cells A) (h : Heap A) (p : Ptr) (c : Option (Node A))
      → Linked h xs
      → has p xs ≡ false
      → Linked (write h p c) xs
  Linked-write xs h p c l out = Linked-frame xs l (λ a i. ground arith)

  pub has-append : (a : Ptr) (xs ys : Cells A) → has a (xs ++ ys) ≡ (has a xs || has a ys)
  has-append a [] ys = refl
  has-append a (x ∷ xs) ys = ground (arith, has-append a xs ys)

  pub has-last_cell : (c : Ptr × A) (xs : Cells A) → has (last_cell c xs).0 (c ∷ xs) ≡ true
  has-last_cell (a, v) [] = ground arith
  has-last_cell (a, v) (d ∷ xs) = ground (arith, has-last_cell d xs)

  pub last-ne :
      (a : Ptr) (c : Ptr × A) (xs : Cells A)
      → has a (c ∷ xs) ≡ false
      → (a == (last_cell c xs).0) ≡ false
  last-ne a c xs out = elim (Bool-cases (a == (last_cell c xs).0)) [
    | inl hit ↦
        let e : a ≡ (last_cell c xs).0 = (==_iff _ _).0 hit in
        cc (out, has-last_cell c xs, ap (λ p. has p (c ∷ xs)) e)
    | inr miss ↦ miss
  ]

  pub has-null : (xs : Cells A) (h : Heap A) → Linked h xs → has null xs ≡ false
  has-null [] h l = refl
  has-null ((a, v) ∷ xs) h (ne, out, e, l) = ground (arith, has-null xs h l)

  -- An address that holds no node is not a cell of the chain.
  pub not-has_of_none :
      (p : Ptr) (xs : Cells A) (h : Heap A) → Linked h xs → h p ≡ none → has p xs ≡ false
  not-has_of_none p [] h l unused = refl
  not-has_of_none p ((a, v) ∷ xs) h (ne, out, e, l) unused =
      ground (arith, not-has_of_none p xs h l)

  -- The last cell of a chain is a node with no successor.
  pub last-holds :
      (c : Ptr × A) (xs : Cells A) (h : Heap A)
      → Linked h (c ∷ xs)
      → (h (last_cell c xs).0 ≡ some (node (last_cell c xs).1 null)) × ((last_cell c xs).0 ≢ null)
  last-holds (a, v) [] h (ne, out, e, l) = (e, ne)
  last-holds (a, v) (d ∷ xs) h (ne, out, e, l) = last-holds d xs h l

  -- Relinking the last cell to a new node behind it extends the chain.
  pub Linked-snoc :
      (c : Ptr × A) (xs : Cells A) (h : Heap A) (p : Ptr) (v : A)
      → Linked h (c ∷ xs)
      → p ≢ null
      → has p (c ∷ xs) ≡ false
      → h p ≡ some (node v null)
      → Linked
          (write h (last_cell c xs).0 (some (node (last_cell c xs).1 p)))
          ((c ∷ xs) ++ (p, v) ∷ [])
  Linked-snoc (a, w) [] h p v (ne, out, e, l) np new at =
      (ne, ground arith, ground arith, (np, refl, ground arith, tt))
  Linked-snoc (a, w) ((b, u) ∷ xs) h p v (ne, out, e, l) np new at = (
    ne,
    ground (arith, has-append a ((b, u) ∷ xs) ((p, v) ∷ [])),
    rw (last-ne a (b, u) xs out) e,
    Linked-snoc (b, u) xs h p v l np (ground arith) at,
  )

  pub length-items : (xs : Cells A) → length (items xs) ≡ length xs
  length-items [] = refl
  length-items (x ∷ xs) = omega (arith, length-items xs)

  pub items-append : (xs ys : Cells A) → items (xs ++ ys) ≡ items xs ++ items ys
  items-append [] ys = refl
  items-append (x ∷ xs) ys = rw (items-append xs ys)

  pub last_ptr-snoc : (xs : Cells A) (c : Ptr × A) → last_ptr (xs ++ c ∷ []) ≡ c.0
  last_ptr-snoc [] c = refl
  last_ptr-snoc (x ∷ []) c = refl
  last_ptr-snoc (x ∷ y ∷ xs) c = last_ptr-snoc (y ∷ xs) c
