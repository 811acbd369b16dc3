-- ===== src/Pool/Exhausted.antt =====
-- cache/handle_with_cache.c: a handler whose send fails keeps its segment, so as many failed sends as there are
-- segments stop the proxy.
use mathlib.Core.Path.{subst}
use cache_server.Base.{
  ℕ, zero, suc, ◌+◌, ◌≡◌, refl, Bool, Option, none, some, List, [], ◌∷◌, ◌++◌, Option-cases, ◌⊎◌,
  inl, inr, length, length-append, arith,
}
use cache_server.Text.{Bytes}
use cache_server.Options.{exits, fault, run}
use cache_server.Options.Loop.{run_inj, then_start-run}
use cache_server.Pool.Sharing.{
  Sharing, Event, called, requested, received, finished, failed, detached, start_sharing, take_at,
  request_cache, pop_segment, send_taken, send_request, receive_request, push_segment, give_up,
  detach_worker, step, steps,
}

-- How many segments are free, or held by a handler.
abbrev pub in_use : Sharing → ℕ
in_use s = length s.free + length s.asking + length s.messages + length s.serving

-- As many segments as at the start, with those that are lost.
abbrev total : Sharing → ℕ
total s = in_use s + length s.lost

-- Nothing is free, and nothing is held.
abbrev pub IsExhausted : Sharing → Type 0
IsExhausted s = (s.free ≡ []) × (s.asking ≡ []) × (s.messages ≡ []) × (s.serving ≡ [])

length-take_at {ℓ} :
    {A : Type ℓ} (i : ℕ) (xs : List A) (y : A) (ys : List A)
    → take_at i xs ≡ some (y, ys)
    → length xs ≡ suc (length ys)
length-take_at i [] y ys e = ground (arith, e)
length-take_at zero (x ∷ xs) y ys e = ground (arith, e)
length-take_at (suc i) (x ∷ xs) y ys e = elim (Option-cases (take_at i xs)) [
  | inl missing ↦ ground (arith, e, missing)
  | inr ((z, zs), found) ↦ ground (arith, e, found, length-take_at i xs z zs found)
]

length-zero {ℓ} : {A : Type ℓ} (xs : List A) → length xs ≡ 0 → xs ≡ []
length-zero [] e = refl
length-zero (x ∷ xs) e = absurd (omega (arith, e))

List-cases {ℓ} :
    {A : Type ℓ} (xs : List A) → (xs ≡ []) ⊎ ((x : A) × (rest : List A) × (xs ≡ x ∷ rest))
List-cases [] = inl refl
List-cases (x ∷ rest) = inr (x, rest, refl)

-- The event is a failed send of a handler that has a segment.
abbrev pub is_failure : Event → Sharing → ℕ
is_failure (failed i) s = elim (take_at i s.serving) [ none ↦ 0 | some _ ↦ 1 ]
is_failure _ s = 0

-- The failed sends of a run, each by a handler that has a segment.
unfoldable pub failures : (segsize : ℕ) → List Event → Sharing → ℕ
unfolding step
failures segsize [] s = 0
failures segsize (e ∷ es) s = elim (step segsize e s) [
  | exits _ ↦ 0
  | fault ↦ 0
  | run t ↦ is_failure e s + failures segsize es t
]

-- A step loses a segment if it is a failed send.
abbrev Loses : Event → Sharing → Sharing → Type 0
Loses e s t = (total t ≡ total s) × (length t.lost ≡ length s.lost + is_failure e s)

module _ (s : Sharing) where
  pop_segment-Loses : (path : Bytes) → Loses (called path) s (pop_segment path s)
  unfolding pop_segment
  pop_segment-Loses path = elim (List-cases s.free) [
    | inl e ↦ rw (pop_segment, e) (ground (arith, e), omega arith)
    | inr (n, rest, e) ↦
        let grown = length-append s.asking ((n, path) ∷ []) in
        rw (pop_segment, e) (ground (arith, e, grown), omega arith)
  ]

  receive_request-Loses : Loses received s (receive_request s)
  unfolding receive_request
  receive_request-Loses = elim (List-cases s.messages) [
    | inl e ↦ rw (receive_request, e) (ground (arith, e), omega arith)
    | inr (msg, rest, e) ↦
        let grown = length-append s.serving (msg.shmid ∷ []) in
        rw (receive_request, e) (ground (arith, e, grown), omega arith)
  ]

  push_segment-Loses : (i : ℕ) → Loses (finished i) s (push_segment i s)
  unfolding push_segment
  push_segment-Loses i = elim (Option-cases (take_at i s.serving)) [
    | inl e ↦ rw (push_segment, e) (refl, omega arith)
    | inr ((n, rest), e) ↦
        let taken = length-take_at i s.serving n rest e in
        let grown = length-append s.free (n ∷ []) in
        rw (push_segment, e) (omega (arith, taken, grown), omega arith)
  ]

  give_up-Loses : (i : ℕ) → Loses (failed i) s (give_up i s)
  unfolding give_up
  give_up-Loses i = elim (Option-cases (take_at i s.serving)) [
    | inl e ↦ rw (give_up, e) (refl, ground (arith, e))
    | inr ((n, rest), e) ↦
        let taken = length-take_at i s.serving n rest e in
        rw (give_up, e) (omega (arith, taken), ground (arith, e))
  ]

  detach_worker-Loses : (i : ℕ) → Loses (detached i) s (detach_worker i s)
  unfolding detach_worker
  detach_worker-Loses i = elim (Option-cases (take_at i s.attached)) [
    | inl e ↦ rw (detach_worker, e) (refl, omega arith)
    | inr (_, e) ↦ rw (detach_worker, e) (refl, omega arith)
  ]

module _ (segsize : ℕ) where
  send_taken-Loses :
      (s t : Sharing) (i : ℕ) (sent : Bool) (taken : Option ((ℕ × Bytes) × List (ℕ × Bytes)))
      → take_at i s.asking ≡ taken
      → send_taken segsize sent s taken ≡ run t
      → Loses (requested i sent) s t
  send_taken-Loses s t i sent none found e =
      subst (Loses (requested i sent) s) (run_inj e) (refl, omega arith)
  send_taken-Loses s t i sent (some ((shmid, path), asking)) found e =
      let taken = length-take_at i s.asking (shmid, path) asking found in
      let (msg, _, left) =
        then_start-run (request_cache path shmid segsize sent)
          (λ msg. run (record s { asking = asking; messages = s.messages ++ msg ∷ [] })) t e in
      let grown = length-append s.messages (msg ∷ []) in
      subst (Loses (requested i sent) s) (run_inj left) (omega (arith, taken, grown), omega arith)

  step-Loses : (e : Event) (s t : Sharing) → step segsize e s ≡ run t → Loses e s t
  unfolding step send_request
  step-Loses (called path) s t e =
      subst (Loses (called path) s) (run_inj e) (pop_segment-Loses s path)
  step-Loses (requested i sent) s t e = send_taken-Loses s t i sent (take_at i s.asking) refl e
  step-Loses received s t e = subst (Loses received s) (run_inj e) (receive_request-Loses s)
  step-Loses (finished i) s t e = subst (Loses (finished i) s) (run_inj e) (push_segment-Loses s i)
  step-Loses (failed i) s t e = subst (Loses (failed i) s) (run_inj e) (give_up-Loses s i)
  step-Loses (detached i) s t e = subst (Loses (detached i) s) (run_inj e) (detach_worker-Loses s i)

  steps-lost :
      (es : List Event) (s t : Sharing)
      → steps segsize es s ≡ run t
      → (total t ≡ total s) × (length t.lost ≡ length s.lost + failures segsize es s)
  unfolding steps failures
  steps-lost [] s t e =
      subst (λ u. (total u ≡ total s) × (length u.lost ≡ length s.lost + 0)) (run_inj e)
        (refl, omega arith)
  steps-lost (ev ∷ es) s t e =
      let (u, first, rest) = then_start-run (step segsize ev s) (steps segsize es) t e in
      let (same, lost) = step-Loses ev s u first in
      let (same', lost') = steps-lost es u t rest in
      rw (failures, first) (omega (arith, same, same'), omega (arith, lost, lost'))

  -- However handlers and cache workers are interleaved, and whatever else happens: a run in which as many sends to clients
  -- have failed as there are segments leaves no segment that is free or held by a handler, so every later
  -- handler waits in `shm_pop`.
  pub exhausted :
      (ids : List ℕ) (es : List Event) (t : Sharing)
      → steps segsize es (start_sharing ids) ≡ run t
      → failures segsize es (start_sharing ids) ≡ length ids
      → IsExhausted t
  exhausted ids es t e all =
      let (same, lost) = steps-lost es (start_sharing ids) t e in
      (
        length-zero t.free (omega (arith, same, lost, all)),
        length-zero t.asking (omega (arith, same, lost, all)),
        length-zero t.messages (omega (arith, same, lost, all)),
        length-zero t.serving (omega (arith, same, lost, all)),
      )
