-- ===== src/Pool/Ownership.antt =====
-- cache/handle_with_cache.c: no segment is lost but by a failed send, and none is held by two handlers.
use mathlib.Core.Path.{subst}
use cache_server.Base.{
  ℕ, zero, suc, ◌+◌, ◌≡◌, refl, sym, ap, ◌∙◌, Bool, Option, none, some, List, [], ◌∷◌, ◌++◌, ◌==◌,
  Option-cases, ◌⊎◌, inl, inr, if◌then◌else◌, arith,
}
use cache_server.Text.{Bytes}
use cache_server.Options.{run}
use cache_server.Options.Loop.{run_inj, then_start-run}
use cache_server.Pool.Sharing.{
  Message, Sharing, Event, called, requested, received, finished, failed, detached, start_sharing,
  take_at, request_cache, pop_segment, send_taken, send_request, receive_request, push_segment,
  give_up, detach_worker, step, steps,
}

module _ {ℓ} {A : Type ℓ} (id : A → ℕ) (a : ℕ) where
  -- How many items have a number.
  abbrev pub uses : List A → ℕ
  uses [] = 0
  uses (x ∷ xs) = if a == id x then suc (uses xs) else uses xs

  uses-append : (xs ys : List A) → uses (xs ++ ys) ≡ uses xs + uses ys
  uses-append [] ys = omega arith
  uses-append (x ∷ xs) ys = ground (arith, uses-append xs ys)

  uses-take_at :
      (i : ℕ) (xs : List A) (y : A) (ys : List A)
      → take_at i xs ≡ some (y, ys)
      → uses xs ≡ uses (y ∷ ys)
  uses-take_at i [] y ys e = ground (arith, e)
  uses-take_at zero (x ∷ xs) y ys e = ground (arith, e)
  uses-take_at (suc i) (x ∷ xs) y ys e = elim (Option-cases (take_at i xs)) [
    | inl missing ↦ ground (arith, e, missing)
    | inr ((z, zs), found) ↦ ground (arith, e, found, uses-take_at i xs z zs found)
  ]

abbrev pub free_uses : ℕ → Sharing → ℕ
free_uses a s = uses (λ (n : ℕ). n) a s.free

abbrev pub held_uses : ℕ → Sharing → ℕ
held_uses a s =
    uses (λ (p : ℕ × Bytes). p.0) a s.asking
    + uses (λ (msg : Message). msg.shmid) a s.messages
    + uses (λ (n : ℕ). n) a s.serving

abbrev pub lost_uses : ℕ → Sharing → ℕ
lost_uses a s = uses (λ (n : ℕ). n) a s.lost

-- How often a segment is in the state.
abbrev pub all_uses : ℕ → Sharing → ℕ
all_uses a s = free_uses a s + held_uses a s + lost_uses a s

List-cases {ℓ} :
    {A : Type ℓ} (xs : List A) → (xs ≡ []) ⊎ ((x : A) × (rest : List A) × (xs ≡ x ∷ rest))
List-cases [] = inl refl
List-cases (x ∷ rest) = inr (x, rest, refl)

module _ (a : ℕ) (s : Sharing) where
  pop_segment-uses : (path : Bytes) → all_uses a (pop_segment path s) ≡ all_uses a s
  unfolding pop_segment
  pop_segment-uses path = elim (List-cases s.free) [
    | inl e ↦ rw (pop_segment, e) (ground (arith, e))
    | inr (n, rest, e) ↦
        let grown = uses-append (λ (p : ℕ × Bytes). p.0) a s.asking ((n, path) ∷ []) in
        rw (pop_segment, e) (ground (arith, e, grown))
  ]

  receive_request-uses : all_uses a (receive_request s) ≡ all_uses a s
  unfolding receive_request
  receive_request-uses = elim (List-cases s.messages) [
    | inl e ↦ rw (receive_request, e) (ground (arith, e))
    | inr (msg, rest, e) ↦
        let grown = uses-append (λ (n : ℕ). n) a s.serving (msg.shmid ∷ []) in
        rw (receive_request, e) (ground (arith, e, grown))
  ]

  push_segment-uses : (i : ℕ) → all_uses a (push_segment i s) ≡ all_uses a s
  unfolding push_segment
  push_segment-uses i = elim (Option-cases (take_at i s.serving)) [
    | inl e ↦ rw (push_segment, e) refl
    | inr ((n, rest), e) ↦
        let taken = uses-take_at (λ (n : ℕ). n) a i s.serving n rest e in
        let grown = uses-append (λ (n : ℕ). n) a s.free (n ∷ []) in
        rw (push_segment, e) (ground (arith, taken, grown))
  ]

  give_up-uses : (i : ℕ) → all_uses a (give_up i s) ≡ all_uses a s
  unfolding give_up
  give_up-uses i = elim (Option-cases (take_at i s.serving)) [
    | inl e ↦ rw (give_up, e) refl
    | inr ((n, rest), e) ↦
        let taken = uses-take_at (λ (n : ℕ). n) a i s.serving n rest e in
        rw (give_up, e) (ground (arith, taken))
  ]

  detach_worker-uses : (i : ℕ) → all_uses a (detach_worker i s) ≡ all_uses a s
  unfolding detach_worker
  detach_worker-uses i = elim (Option-cases (take_at i s.attached)) [
    | inl e ↦ rw (detach_worker, e) refl
    | inr (_, e) ↦ rw (detach_worker, e) refl
  ]

module _ (a segsize : ℕ) where
  sent-uses :
      (s t : Sharing) (shmid : ℕ) (asking : List (ℕ × Bytes)) (msg : Message)
      → msg.shmid ≡ shmid
      → uses (λ (p : ℕ × Bytes). p.0) a s.asking
        ≡ uses (λ (p : ℕ × Bytes). p.0) a asking + uses (λ (n : ℕ). n) a (shmid ∷ [])
      → run (record s { asking = asking; messages = s.messages ++ msg ∷ [] }) ≡ run t
      → all_uses a t ≡ all_uses a s
  sent-uses s t shmid asking msg id taken e =
      let grown = uses-append (λ (m : Message). m.shmid) a s.messages (msg ∷ []) in
      subst (λ u. all_uses a u ≡ all_uses a s) (run_inj e) (ground (arith, id, taken, grown))

  request_cache-shmid :
      (path : Bytes) (shmid : ℕ) (sent : Bool) (msg : Message)
      → request_cache path shmid segsize sent ≡ run msg
      → msg.shmid ≡ shmid
  unfolding request_cache
  request_cache-shmid path shmid sent msg e = ground (arith, e)

  send_taken-uses :
      (s t : Sharing) (i : ℕ) (sent : Bool) (taken : Option ((ℕ × Bytes) × List (ℕ × Bytes)))
      → take_at i s.asking ≡ taken
      → send_taken segsize sent s taken ≡ run t
      → all_uses a t ≡ all_uses a s
  send_taken-uses s t i sent none found e = ap (all_uses a) (sym (run_inj e))
  send_taken-uses s t i sent (some ((shmid, path), asking)) found e =
      let left_over =
        uses-take_at (λ (p : ℕ × Bytes). p.0) a i s.asking (shmid, path) asking found in
      let (msg, made, left) =
        then_start-run (request_cache path shmid segsize sent)
          (λ msg. run (record s { asking = asking; messages = s.messages ++ msg ∷ [] })) t e in
      sent-uses s t shmid asking msg (request_cache-shmid path shmid sent msg made)
        (ground (arith, left_over)) left

  step-uses : (e : Event) (s t : Sharing) → step segsize e s ≡ run t → all_uses a t ≡ all_uses a s
  unfolding step send_request
  step-uses (called path) s t e = ap (all_uses a) (sym (run_inj e)) ∙ pop_segment-uses a s path
  step-uses (requested i sent) s t e = send_taken-uses s t i sent (take_at i s.asking) refl e
  step-uses received s t e = ap (all_uses a) (sym (run_inj e)) ∙ receive_request-uses a s
  step-uses (finished i) s t e = ap (all_uses a) (sym (run_inj e)) ∙ push_segment-uses a s i
  step-uses (detached i) s t e = ap (all_uses a) (sym (run_inj e)) ∙ detach_worker-uses a s i
  step-uses (failed i) s t e = ap (all_uses a) (sym (run_inj e)) ∙ give_up-uses a s i

  steps-uses :
      (es : List Event) (s t : Sharing) → steps segsize es s ≡ run t → all_uses a t ≡ all_uses a s
  unfolding steps
  steps-uses [] s t e = ap (all_uses a) (sym (run_inj e))
  steps-uses (ev ∷ es) s t e =
      let (u, first, rest) = then_start-run (step segsize ev s) (steps segsize es) t e in
      steps-uses es u t rest ∙ step-uses ev s u first

module _ (segsize a : ℕ) (ids : List ℕ) (es : List Event) (t : Sharing) where
  -- However handlers and cache workers are interleaved, and whichever sends fail: each segment is
  -- as often in the state as it was in the queue at the start, counting the free ones, those held
  -- by handlers or in messages, and those kept after a failed send. So a segment that was created
  -- once is never held by two handlers at once.
  pub segments_conserved :
      steps segsize es (start_sharing ids) ≡ run t → all_uses a t ≡ uses (λ (n : ℕ). n) a ids
  segments_conserved e = steps-uses a segsize es (start_sharing ids) t e ∙ omega arith
