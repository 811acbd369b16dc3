-- ===== src/Steque/Destroy.antt =====
-- gflib/steque.c: `steque_destroy` pops until the steque is empty.
use cache_server.Base.{
  ℕ, zero, suc, ◌<◌, ◌≡◌, refl, true, false, none, [], ◌∷◌, arith, ◌==◌, length, ==_iff, ap, ◌∙◌,
  ||_false, Bool-cases, inl, inr,
}
use cache_server.Steque.{
  Ptr, Heap, Steque, Outcome, ok, fault, exits, out_of_fuel, steque_pop, steque_size,
  steque_isempty, steque_destroy,
}
use cache_server.Steque.Chain.{Cells, has, IsSteque}
use cache_server.Steque.Refine.{Returns, SameOutside}
use cache_server.Steque.Front.{pop-IsSteque, observe-IsSteque}

module _ {A : Type 0} where
  pub inversion :
      {B : Type 0} (r : Outcome A B) (P : B → Steque A → Type 0)
      → Returns r P
      → (b : B) × (t : Steque A) × (r ≡ ok b t) × P b t
  inversion (ok b t) P h = (b, t, refl, h)
  inversion fault P h = elim h [ ]
  inversion (exits _) P h = elim h [ ]
  inversion out_of_fuel P h = elim h [ ]

  pub mono :
      {B : Type 0} (r : Outcome A B) (P Q : B → Steque A → Type 0)
      → Returns r P
      → ((b : B) (t : Steque A) → P b t → Q b t)
      → Returns r Q
  mono (ok b t) P Q h weaken = weaken b t h
  mono fault P Q h weaken = elim h [ ]
  mono (exits _) P Q h weaken = elim h [ ]
  mono out_of_fuel P Q h weaken = elim h [ ]

  pub isempty-nil : (s : Steque A) → IsSteque s [] → steque_isempty s ≡ ok true s
  unfolding steque_isempty
  isempty-nil s is = ap (λ b. ok b s) ((==_iff s.count 0).1 is.count)

  pub size-nil : (s : Steque A) → IsSteque s [] → steque_size s ≡ ok zero s
  unfolding steque_size
  size-nil s is = ap (λ n. ok n s) is.count

  abbrev pub Freed : Cells A → Heap A → Type 0
  Freed xs h = (a : Ptr) → has a xs ≡ true → h a ≡ none

  -- Once the front node is freed, freeing the rest leaves every node freed.
  Freed-cons :
      (p : Ptr) (v : A) (xs : Cells A) (g h k : Heap A)
      → has p xs ≡ false
      → h p ≡ none
      → SameOutside ((p, v) ∷ []) g h
      → Freed xs k
      → SameOutside xs h k
      → Freed ((p, v) ∷ xs) k × SameOutside ((p, v) ∷ xs) g k
  Freed-cons p v xs g h k out gone same freed same' = (
    λ a i. elim (Bool-cases (a == p)) [
      | inl e ↦ let e' : a ≡ p = (==_iff a p).0 e in rw e' (same' p out ∙ gone)
      | inr e ↦ freed a (rw e at i)
    ],
    λ a o. let (ne, rest) = ||_false (a == p) (has a xs) o in same' a rest ∙ same a (rw ne),
  )

  -- With more fuel than items the loop ends, the steque is empty, and every node has been freed.
  pub destroy-IsSteque :
      (fuel : ℕ) (s : Steque A) (xs : Cells A)
      → IsSteque s xs
      → length xs < fuel
      → Returns
          (steque_destroy fuel s)
          (λ _ t. IsSteque t [] × Freed xs t.heap × SameOutside xs s.heap t.heap)
  unfolding steque_destroy
  destroy-IsSteque zero s xs is lt = absurd (omega arith)
  destroy-IsSteque (suc fuel) s [] is lt = rw (isempty-nil s is) (is, λ a i. cc, λ a out. refl)
  destroy-IsSteque (suc fuel) s ((p, v) ∷ xs) is lt =
      let (w, t, e, (_, is', gone, same)) = inversion (steque_pop s) _ (pop-IsSteque s p v xs is) in
      rw ((observe-IsSteque s p v xs is).2, e)
        (mono (steque_destroy fuel t) _ _ (destroy-IsSteque fuel t xs is' (omega arith))
          λ _ u (is'', freed, same').
            let (f, o) = Freed-cons p v xs s.heap t.heap u.heap is.linked.1 gone same freed same' in
            (is'', f, o))
