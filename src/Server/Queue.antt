-- ===== src/Server/Queue.antt =====
-- gflib/gfserver.c: no request is lost, and none waits while all workers sleep.
use mathlib.Core.Path.{subst}
use cache_server.Base.{
  ℕ, zero, suc, ◌+◌, ◌<◌, ◌≡◌, ◌≢◌, refl, sym, ap, ◌∙◌, Option, none, some, List, [], ◌∷◌, ◌++◌,
  arith, length, length-append, length-take, length-drop, get_elem?, get_elem?-lt, take, drop,
  append_assoc, ◌⊎◌, inl, inr, Option-cases,
}
use cache_server.Rio.{Got}
use cache_server.Server.{
  Task, accepting, signalling, Server, gfserver_init, add_task, signal_nonempty, gfs_abort,
  gfserver_serve, take_task, finish_task, wake_up, request_path,
}

-- One step of the accepting thread or of a worker.
pub data Step : Server → Server → Type 0 where
  serves :
      (ctx : ℕ) (head : Got) (s : Server)
      → s.boss ≡ accepting
      → Step s (gfserver_serve ctx head s).0
  signals : (s : Server) → s.boss ≡ signalling → Step s (signal_nonempty s)
  takes : (s t : Server) → take_task s ≡ some t → Step s t
  finishes : (i : ℕ) (s t : Server) → finish_task i s ≡ some t → Step s t
  wakes : (s t : Server) → wake_up s ≡ some t → Step s t

pub data Reach (n : ℕ) : Server → Type 0 where
  starts : Reach n (gfserver_init n)
  step_to : (s t : Server) → Reach n s → Step s t → Reach n t

-- A queue with tasks has a worker that is awake or at work, or a signal to come.
abbrev Attended : Server → Type 0
Attended s = (s.queue ≡ []) ⊎ (0 < s.awake + length s.serving) ⊎ (s.boss ≡ signalling)

record Inv (n : ℕ) (s : Server) : Type 0 where
  workers : s.awake + s.asleep + length s.serving ≡ n
  order : s.taken ++ s.queue ≡ s.added
  attended : Attended s

init-Inv : (n : ℕ) → Inv n (gfserver_init n)
unfolding gfserver_init
init-Inv n = record { workers = omega arith; order = refl; attended = inl refl }

serve-Inv : (n ctx : ℕ) (head : Got) (s : Server) → Inv n s → Inv n (gfserver_serve ctx head s).0
unfolding gfserver_serve add_task gfs_abort
serve-Inv n ctx head s i = elim (Option-cases (request_path head)) [
  | inl e ↦
      rw (gfserver_serve, e)
        (record { workers = i.workers; order = i.order; attended = i.attended })
  | inr (path, e) ↦
      rw (gfserver_serve, e)
        (record {
          workers = i.workers;
          order =
              sym (append_assoc s.taken s.queue (record { path = path; ctx = ctx } ∷ []))
              ∙ ap (λ q. q ++ record { path = path; ctx = ctx } ∷ []) i.order;
          attended = inr (inr refl);
        })
]

signal-Inv :
    (n : ℕ) (s : Server) (k : ℕ) → 0 < n → s.asleep ≡ k → Inv n s → Inv n (signal_nonempty s)
unfolding signal_nonempty
signal-Inv n s zero pos e i =
    rw (signal_nonempty, e)
      (record {
        workers = i.workers;
        order = i.order;
        attended = inr (inl (omega (arith, i.workers, e)));
      })
signal-Inv n s (suc k) pos e i =
    rw (signal_nonempty, e)
      (record {
        workers = omega (arith, i.workers, e);
        order = i.order;
        attended = inr (inl (omega arith));
      })

abbrev InvAfter : ℕ → Option Server → Type 0
InvAfter n none = Unit
InvAfter n (some t) = Inv n t

take-Inv :
    (n : ℕ) (s : Server) (k : ℕ) (q : List Task)
    → s.awake ≡ k
    → s.queue ≡ q
    → Inv n s
    → InvAfter n (take_task s)
unfolding take_task
take-Inv n s zero q e f i = rw (take_task, e) tt
take-Inv n s (suc k) [] e f i =
    rw (take_task, e, f)
      (record { workers = omega (arith, i.workers, e); order = i.order; attended = inl f })
take-Inv n s (suc k) (t ∷ q) e f i =
    rw (take_task, e, f)
      (record {
        workers = omega (arith, i.workers, e, length-append s.serving (t ∷ []));
        order = append_assoc s.taken (t ∷ []) q ∙ ap (λ r. s.taken ++ r) (sym f) ∙ i.order;
        attended = inr (inl (omega (arith, length-append s.serving (t ∷ []))));
      })

finish-Inv : (n j : ℕ) (s : Server) → Inv n s → InvAfter n (finish_task j s)
unfolding finish_task gfs_abort
finish-Inv n j s i = elim (Option-cases (get_elem? s.serving j)) [
  | inl e ↦ rw (finish_task, e) tt
  | inr (t, e) ↦
      let lt = get_elem?-lt s.serving j t e in
      let size : length (take j s.serving ++ drop (j + 1) s.serving) + 1 ≡ length s.serving =
        omega (
          arith,
          length-append (take j s.serving) (drop (j + 1) s.serving),
          length-take j s.serving,
          length-drop (j + 1) s.serving,
          lt,
        ) in
      rw (finish_task, e)
        (record {
          workers = omega (arith, i.workers, size);
          order = i.order;
          attended = inr (inl (omega arith));
        })
]

wake-Inv : (n : ℕ) (s : Server) (k : ℕ) → s.asleep ≡ k → Inv n s → InvAfter n (wake_up s)
unfolding wake_up
wake-Inv n s zero e i = rw (wake_up, e) tt
wake-Inv n s (suc k) e i =
    rw (wake_up, e)
      (record {
        workers = omega (arith, i.workers, e);
        order = i.order;
        attended = inr (inl (omega arith));
      })

Step-Inv : (n : ℕ) (s t : Server) → 0 < n → Step s t → Inv n s → Inv n t
Step-Inv n s t pos (serves ctx head _ b) i = serve-Inv n ctx head s i
Step-Inv n s t pos (signals _ b) i = signal-Inv n s s.asleep pos refl i
Step-Inv n s t pos (takes _ _ e) i = subst (InvAfter n) e (take-Inv n s s.awake s.queue refl refl i)
Step-Inv n s t pos (finishes j _ _ e) i = subst (InvAfter n) e (finish-Inv n j s i)
Step-Inv n s t pos (wakes _ _ e) i = subst (InvAfter n) e (wake-Inv n s s.asleep refl i)

Reach-Inv : (n : ℕ) (s : Server) → 0 < n → Reach n s → Inv n s
Reach-Inv n s pos starts = init-Inv n
Reach-Inv n s pos (step_to u _ r st) = Step-Inv n u s pos st (Reach-Inv n u pos r)

-- With at least one worker, however the accepting thread and the workers are interleaved: the requests are handed to the
-- handlers in the order of their arrival, and those not yet handed over are in the queue, in order; and
-- no worker is lost.
pub in_order :
    (n : ℕ) (s : Server)
    → 0 < n
    → Reach n s
    → (s.taken ++ s.queue ≡ s.added) × (s.awake + s.asleep + length s.serving ≡ n)
in_order n s pos r = let i = Reach-Inv n s pos r in (i.order, i.workers)

-- With at least one worker, never does a request wait in the queue while all workers sleep and no signal
-- is to come: then a worker is awake or at work, or the accepting thread is about to signal.
pub no_lost_wakeup :
    (n : ℕ) (s : Server)
    → 0 < n
    → Reach n s
    → s.queue ≢ []
    → (0 < s.awake + length s.serving) ⊎ (s.boss ≡ signalling)
no_lost_wakeup n s pos r some_left = elim (Reach-Inv n s pos r).attended [
  | inl empty ↦ absurd (some_left empty)
  | inr rest ↦ rest
]
