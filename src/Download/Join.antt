-- ===== src/Download/Join.antt =====
-- gflib/gfclient_download.c: `gfclient_join` returns when all downloads are over, and not before.
pub mod Invariant
use mathlib.Core.Path.{subst}
use cache_server.Base.{
  ℕ, zero, suc, ◌+◌, ◌-◌, ◌<◌, ◌≡◌, refl, ap, ◌∙◌, Option, none, some, List, [], ◌∷◌, ◌++◌, arith,
  length, length-append, length-take, length-drop, get_elem?, get_elem?-lt, take, drop, inl, inr,
  Option-cases, Bool-cases, ◌==◌, if◌then◌else◌,
}
use cache_server.Download.{
  Item, Main, loading, signalling, joining, waiting, joined, Download, spawn, gfclient_download,
  signal_task, take_item, wake_worker, finish_item, wake_main, signal_done, gfclient_join,
}
use cache_server.Download.Join.Invariant.{
  MainOk, Inv, InvAfter, signal-Inv, join-Inv, take-Inv, wake-Inv, finish-Inv, announce-Inv,
}

-- One step of the main thread or of a worker. A wait for `done` may end with no signal.
pub data Step : Download → Download → Type 0 where
  adds : (it : Item) (s : Download) → s.main ≡ loading → Step s (gfclient_download it s)
  signals : (s : Download) → s.main ≡ signalling → Step s (signal_task s)
  stops : (s : Download) → s.main ≡ loading → Step s (record s { main = joining })
  tests : (s : Download) → s.main ≡ joining → Step s (gfclient_join s)
  wakes_main : (s : Download) → s.main ≡ waiting → Step s (record s { main = joining })
  takes : (s t : Download) → take_item s ≡ some t → Step s t
  wakes : (s t : Download) → wake_worker s ≡ some t → Step s t
  finishes : (i : ℕ) (s t : Download) → finish_item i s ≡ some t → Step s t
  announces : (s t : Download) → signal_done s ≡ some t → Step s t

pub data Reach (n : ℕ) : Download → Type 0 where
  starts : Reach n (spawn n)
  step_to : (s t : Download) → Reach n s → Step s t → Reach n t

Step-Inv : (n : ℕ) (s t : Download) → Step s t → Inv n s → Inv n t
unfolding gfclient_download
Step-Inv n s t (adds it _ m) i = record {
  counted = omega (arith, i.counted, length-append s.queue (it ∷ []));
  total = omega (arith, i.total);
  workers = i.workers;
  main_ok = tt;
}
Step-Inv n s t (signals _ m) i = signal-Inv n s s.asleep refl i
Step-Inv n s t (stops _ m) i = record {
  counted = i.counted;
  total = i.total;
  workers = i.workers;
  main_ok = tt;
}
Step-Inv n s t (tests _ m) i = join-Inv n s i
Step-Inv n s t (wakes_main _ m) i = record {
  counted = i.counted;
  total = i.total;
  workers = i.workers;
  main_ok = tt;
}
Step-Inv n s t (takes _ _ e) i = subst (InvAfter n) e (take-Inv n s s.awake s.queue refl refl i)
Step-Inv n s t (wakes _ _ e) i = subst (InvAfter n) e (wake-Inv n s s.asleep refl i)
Step-Inv n s t (finishes j _ _ e) i = subst (InvAfter n) e (finish-Inv n j s i)
Step-Inv n s t (announces _ _ e) i = subst (InvAfter n) e (announce-Inv n s s.announcing refl i)

Reach-Inv : (n : ℕ) (s : Download) → Reach n s → Inv n s
unfolding spawn
Reach-Inv n s starts = record { counted = refl; total = refl; workers = omega arith; main_ok = tt }
Reach-Inv n s (step_to u _ r st) = Step-Inv n u s st (Reach-Inv n u r)

-- However the threads are interleaved: when `gfclient_join` is past its wait, as many downloads have
-- finished as were requested, none is queued and none is in work.
pub join_complete :
    (n : ℕ) (s : Download)
    → Reach n s
    → s.main ≡ joined
    → (length s.finished ≡ s.added) × (length s.queue ≡ 0) × (length s.serving ≡ 0)
join_complete n s r m =
    let i = Reach-Inv n s r in
    let idle : s.busy ≡ 0 = subst (λ p. MainOk p s.busy s.announcing) m i.main_ok in
    (omega (arith, i.total, idle), omega (arith, i.counted, idle), omega (arith, i.counted, idle))

-- While `gfclient_join` waits, a download is queued or in work, or a worker is about to signal.
pub join_woken :
    (n : ℕ) (s : Download)
    → Reach n s
    → s.main ≡ waiting
    → 0 < length s.queue + length s.serving + s.announcing
join_woken n s r m =
    let i = Reach-Inv n s r in
    let some_left : 0 < s.busy + s.announcing =
      subst (λ p. MainOk p s.busy s.announcing) m i.main_ok in
    omega (arith, i.counted, some_left)
