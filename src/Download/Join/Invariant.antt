-- ===== src/Download/Join/Invariant.antt =====
-- gflib/gfclient_download.c: each step of a worker keeps the counts of the queue and of the work.
use cache_server.Base.{
  ℕ, zero, suc, ◌+◌, ◌-◌, ◌<◌, ◌≡◌, ap, ◌∙◌, Option, none, some, List, [], ◌∷◌, ◌++◌, arith, length,
  length-append, length-take, length-drop, get_elem?, get_elem?-lt, take, drop, inl, inr,
  Option-cases, Bool-cases, ◌==◌, if◌then◌else◌,
}
use cache_server.Download.{
  Item, Main, loading, signalling, joining, waiting, joined, Download, signal_task, take_item,
  wake_worker, finish_item, wake_main, signal_done, gfclient_join,
}

-- What the position of the main thread says.
abbrev pub MainOk : Main → ℕ → ℕ → Type 0
MainOk waiting busy announcing = 0 < busy + announcing
MainOk joined busy announcing = busy ≡ 0
MainOk _ busy announcing = Unit

pub record Inv (n : ℕ) (s : Download) : Type 0 where
  pub counted : s.busy ≡ length s.queue + length s.serving
  pub total : s.added ≡ length s.finished + s.busy
  pub workers : s.awake + s.asleep + s.announcing + length s.serving ≡ n
  pub main_ok : MainOk s.main s.busy s.announcing

-- After a download is over, unless none was in work.
MainOk-finish :
    (m : Main) (busy announcing : ℕ)
    → 0 < busy
    → MainOk m busy announcing
    → MainOk m (busy - 1) (if busy - 1 == 0 then announcing + 1 else announcing)
MainOk-finish loading b a pos h = tt
MainOk-finish signalling b a pos h = tt
MainOk-finish joining b a pos h = tt
MainOk-finish waiting b a pos h = ground arith
MainOk-finish joined b a pos h = absurd (omega (arith, h))

MainOk-announce :
    (m : Main) (busy announcing k : ℕ) → MainOk m busy announcing → MainOk (wake_main m) busy k
MainOk-announce loading b a k h = tt
MainOk-announce signalling b a k h = tt
MainOk-announce joining b a k h = tt
MainOk-announce waiting b a k h = tt
MainOk-announce joined b a k h = h

abbrev pub InvAfter : ℕ → Option Download → Type 0
InvAfter n none = Unit
InvAfter n (some t) = Inv n t

pub take-Inv :
    (n : ℕ) (s : Download) (k : ℕ) (q : List Item)
    → s.awake ≡ k
    → s.queue ≡ q
    → Inv n s
    → InvAfter n (take_item s)
unfolding take_item
take-Inv n s zero q e f i = rw (take_item, e) tt
take-Inv n s (suc k) [] e f i =
    rw (take_item, e, f)
      (record {
        counted = i.counted;
        total = i.total;
        workers = omega (arith, i.workers, e);
        main_ok = i.main_ok;
      })
take-Inv n s (suc k) (it ∷ q) e f i =
    let before : s.busy ≡ suc (length q) + length s.serving =
      i.counted ∙ ap (λ r. length r + length s.serving) f in
    rw (take_item, e, f)
      (record {
        counted = omega (arith, before, length-append s.serving (it ∷ []));
        total = i.total;
        workers = omega (arith, i.workers, e, length-append s.serving (it ∷ []));
        main_ok = i.main_ok;
      })

pub wake-Inv : (n : ℕ) (s : Download) (k : ℕ) → s.asleep ≡ k → Inv n s → InvAfter n (wake_worker s)
unfolding wake_worker
wake-Inv n s zero e i = rw (wake_worker, e) tt
wake-Inv n s (suc k) e i =
    rw (wake_worker, e)
      (record {
        counted = i.counted;
        total = i.total;
        workers = omega (arith, i.workers, e);
        main_ok = i.main_ok;
      })

pub signal-Inv : (n : ℕ) (s : Download) (k : ℕ) → s.asleep ≡ k → Inv n s → Inv n (signal_task s)
unfolding signal_task
signal-Inv n s zero e i =
    rw (signal_task, e)
      (record { counted = i.counted; total = i.total; workers = i.workers; main_ok = tt })
signal-Inv n s (suc k) e i =
    rw (signal_task, e)
      (record {
        counted = i.counted;
        total = i.total;
        workers = omega (arith, i.workers, e);
        main_ok = tt;
      })

pub finish-Inv : (n j : ℕ) (s : Download) → Inv n s → InvAfter n (finish_item j s)
unfolding finish_item
finish-Inv n j s i = elim (Option-cases (get_elem? s.serving j)) [
  | inl e ↦ rw (finish_item, e) tt
  | inr (it, e) ↦
      let lt = get_elem?-lt s.serving j it e in
      let size : length (take j s.serving ++ drop (j + 1) s.serving) + 1 ≡ length s.serving =
        omega (
          arith,
          length-append (take j s.serving) (drop (j + 1) s.serving),
          length-take j s.serving,
          length-drop (j + 1) s.serving,
          lt,
        ) in
      rw (finish_item, e)
        (record {
          counted = omega (arith, i.counted, size);
          total = omega (arith, i.total, i.counted, size, length-append s.finished (it ∷ []));
          workers = ground (arith, i.workers, size);
          main_ok =
              MainOk-finish s.main s.busy s.announcing (omega (arith, i.counted, lt)) i.main_ok;
        })
]

pub announce-Inv :
    (n : ℕ) (s : Download) (k : ℕ) → s.announcing ≡ k → Inv n s → InvAfter n (signal_done s)
unfolding signal_done
announce-Inv n s zero e i = rw (signal_done, e) tt
announce-Inv n s (suc k) e i =
    rw (signal_done, e)
      (record {
        counted = i.counted;
        total = i.total;
        workers = omega (arith, i.workers, e);
        main_ok = MainOk-announce s.main s.busy s.announcing k i.main_ok;
      })

pub join-Inv : (n : ℕ) (s : Download) → Inv n s → Inv n (gfclient_join s)
unfolding gfclient_join
join-Inv n s i = elim (Bool-cases (s.busy == 0)) [
  | inl e ↦
      rw (gfclient_join, e)
        (record {
          counted = i.counted;
          total = i.total;
          workers = i.workers;
          main_ok = ground (arith, e);
        })
  | inr e ↦
      rw (gfclient_join, e)
        (record {
          counted = i.counted;
          total = i.total;
          workers = i.workers;
          main_ok = ground (arith, e);
        })
]
