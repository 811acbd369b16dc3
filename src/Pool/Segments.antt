-- ===== src/Pool/Segments.antt =====
-- cache/handle_with_cache.c: every segment is in the queue once, and is removed at the end.
use cache_server.Base.{
  ℕ, zero, suc, ◌+◌, ◌≤◌, ◌<◌, ◌^◌, ◌≡◌, ◌≢◌, refl, sym, ap, ◌∙◌, false, Option, none, some, List,
  [], ◌∷◌, ◌++◌, arith, length, length-append, append_assoc, append-nil, ◌==◌, Bool-cases, ==_iff,
  inl, inr,
}
use cache_server.Base.Int.{ℤ, pos, negsuc}
use cache_server.Steque.{Ptr, null, Steque, steque_init, steque_enqueue, steque_pop, steque_destroy}
use cache_server.Steque.Chain.{Cells, items, IsSteque, not-has_of_none, items-append, length-items}
use cache_server.Steque.Refine.{Returns, init-IsSteque, enqueue-IsSteque}
use cache_server.Steque.Front.{pop-IsSteque, observe-IsSteque}
use cache_server.Steque.Destroy.{inversion, mono, size-nil, destroy-IsSteque}
use cache_server.Options.{run}
use cache_server.Pool.{
  getmsqid, shm_push, shm_pop, init_loop, init_cache_handlers, clean_loop, clean_cache_handlers,
  remove_queue, Cleaned,
}

clean_loop-items :
    (fuel : ℕ) (s : Steque ℕ) (xs : Cells ℕ)
    → IsSteque s xs
    → length xs < fuel
    → Returns (clean_loop fuel s) (λ ids t. (ids ≡ items xs) × IsSteque t [])
unfolding clean_loop shm_pop
clean_loop-items zero s xs is lt = absurd (omega arith)
clean_loop-items (suc fuel) s [] is lt = rw (size-nil s is) (refl, is)
clean_loop-items (suc fuel) s ((p, v) ∷ xs) is lt =
    let (w, t, e, (same, is', gone, out)) = inversion (steque_pop s) _ (pop-IsSteque s p v xs is) in
    let (ids, u, e', (rest, is'')) =
      inversion (clean_loop fuel t) _ (clean_loop-items fuel t xs is' (omega arith)) in
    let size = (observe-IsSteque s p v xs is).1 in
    rw (size, size, e, e') ((λ i. same i ∷ rest i), is'')

-- `clean_cache_handlers` removes the segments in the queue, in order, and the message queue, if
-- there is one, and leaves neither.
abbrev pub Removes : ℤ → List ℕ → Cleaned → Type 0
Removes msqid ids c =
    (c.segments ≡ ids) × (c.queues ≡ (remove_queue msqid).0) × (c.msqid ≡ negsuc 0)

remove_queue-none : (msqid : ℤ) → (remove_queue msqid).1 ≡ negsuc 0
remove_queue-none (pos _) = refl
remove_queue-none (negsuc zero) = refl
remove_queue-none (negsuc (suc _)) = refl

pub clean-Removes :
    (fuel : ℕ) (msqid : ℤ) (s : Steque ℕ) (xs : Cells ℕ)
    → IsSteque s xs
    → length xs < fuel
    → Returns
        (clean_cache_handlers fuel msqid s)
        (λ c t. Removes msqid (items xs) c × IsSteque t [])
unfolding clean_cache_handlers
clean-Removes fuel msqid s xs is lt =
    let (ids, t, e, (all, is')) =
      inversion (clean_loop fuel s) _ (clean_loop-items fuel s xs is lt) in
    let (w, u, e', (is'', _, _)) =
      inversion (steque_destroy fuel t) _ (destroy-IsSteque fuel t [] is' (omega (arith, lt))) in
    rw (e, e') ((all, refl, remove_queue-none msqid), is'')

-- With a message queue and no segment to create, the queue stays empty and `shm_pop` waits.
pub init-zero :
    (key msqid : ℕ) (segment : ℕ → Option ℕ) (fresh : ℕ → Ptr) (s : Steque ℕ)
    → Returns
        (init_cache_handlers (some key) (λ _. some msqid) segment fresh 0 s)
        (λ _ t. Returns (shm_pop t) (λ found _. found ≡ none))
unfolding init_cache_handlers shm_pop getmsqid
init-zero key msqid segment fresh s =
    let (_, t, e, (is, _)) = inversion (steque_init s) _ (init-IsSteque s) in
    rw (e, size-nil t is) refl

-- From file `i` on, the segments have these ids.
abbrev pub Gives : (ℕ → Option ℕ) → ℕ → List ℕ → Type 0
Gives segment i [] = Unit
Gives segment i (shmid ∷ ids) = (segment i ≡ some shmid) × Gives segment (i + 1) ids

module _ (segment : ℕ → Option ℕ) (fresh : ℕ → Ptr) (real : (j : ℕ) → fresh j ≢ null)
    (distinct : (j k : ℕ) → fresh j ≡ fresh k → j ≡ k) where
  init_loop-items :
      (ids : List ℕ) (i : ℕ) (s : Steque ℕ) (xs : Cells ℕ)
      → IsSteque s xs
      → Gives segment i ids
      → ((j : ℕ) → i ≤ j → s.heap (fresh j) ≡ none)
      → length xs + length ids < 2 ^ 31
      → Returns
          (init_loop segment fresh (length ids) i s)
          (λ _ t. (ys : Cells ℕ) × IsSteque t ys × (items ys ≡ items xs ++ ids))
  unfolding init_loop shm_push
  init_loop-items [] i s xs is gives unused fits = (xs, is, sym (append-nil (items xs)))
  init_loop-items (v ∷ ids) i s xs is (given, gives) unused fits =
      let (w, t, e, (is', out)) = inversion (steque_enqueue (fresh i) v s) _ (
        enqueue-IsSteque s xs (fresh i) v is (real i) (unused i (omega arith))
          (omega (arith, fits))) in
      let free : (j : ℕ) → i + 1 ≤ j → t.heap (fresh j) ≡ none = λ j le.
        let ne : (fresh j == fresh i) ≡ false = elim (Bool-cases (fresh j == fresh i)) [
          | inl q ↦
              let same : j ≡ i = distinct j i ((==_iff (fresh j) (fresh i)).0 q) in
              absurd (omega (arith, same, le))
          | inr q ↦ q
        ] in
        let absent = not-has_of_none (fresh j) xs s.heap is.linked (unused j (omega arith)) in
        out (fresh j) (rw (ne, absent) refl) ∙ unused j (omega arith) in
      let grown = items-append xs ((fresh i, v) ∷ []) in
      let rest =
        init_loop-items ids (i + 1) t (xs ++ (fresh i, v) ∷ []) is' gives free
          (omega (arith, fits, length-append xs ((fresh i, v) ∷ []))) in
      rw (given, e)
        (mono (init_loop segment fresh (length ids) (i + 1) t) _ _ rest (λ _ u (ys, is'', same).
          (ys, is'', same ∙ ap (λ zs. zs ++ ids) grown ∙ append_assoc (items xs) (v ∷ []) ids)))

  items-length : (ys : Cells ℕ) (ids : List ℕ) → items ys ≡ ids → length ys ≡ length ids
  items-length ys ids same = sym (length-items ys) ∙ ap length same

  -- If `ftok` and `msgget` give the message queue, and `open`, `ftok` and `shmget` succeed for each file for fewer than 2^31 files, and `malloc` gives new nodes, after
  -- `init_cache_handlers` `msqid` is that queue and the queue of segments holds the segments' ids in order; and `clean_cache_handlers`
  -- removes each of them once, in order, and the message queue, and leaves the queue of segments empty and `msqid` at -1.
  pub init-clean :
      (ids : List ℕ) (key queue : ℕ) (msgget : ℕ → Option ℕ) (s : Steque ℕ)
      → msgget key ≡ some queue
      → Gives segment 0 ids
      → ((j : ℕ) → s.heap (fresh j) ≡ none)
      → length ids < 2 ^ 31
      → Returns (init_cache_handlers (some key) msgget segment fresh (length ids) s) (λ msqid t.
        (msqid ≡ queue)
        × ((ys : Cells ℕ) × IsSteque t ys × (items ys ≡ ids))
        × Returns (clean_cache_handlers (length ids + 1) (pos msqid) t) (λ c u.
          (c.segments ≡ ids) × (c.queues ≡ pos queue ∷ []) × (c.msqid ≡ negsuc 0) × IsSteque u []))
  unfolding init_cache_handlers getmsqid
  init-clean ids key queue msgget s found gives unused fits =
      let (w, t, e, (is, heap)) = inversion (steque_init s) _ (init-IsSteque s) in
      let (w', u, e', (ys, is', same)) = inversion (init_loop segment fresh (length ids) 0 t) _ (
        init_loop-items ids 0 t [] is gives (λ j le. ap (λ h. h (fresh j)) heap ∙ unused j)
          (omega (arith, fits))) in
      let asked : getmsqid (some key) msgget ≡ run queue = rw (getmsqid, found) refl in
      rw (init_cache_handlers, asked, e, e')
        (
          refl,
          (ys, is', same),
          mono (clean_cache_handlers (length ids + 1) (pos queue) u) _ _
              (clean-Removes (length ids + 1) (pos queue) u ys is'
                (omega (arith, items-length ys ids same)))
              (λ c v ((all, queues, reset), is''). (all ∙ same, queues, reset, is'')),
        )
