-- ===== src/Channel/Livelock.antt =====
-- cache/webproxy.c accepts a segment of exactly `sizeof(cache)` bytes (`segsize < sizeof(cache)` is
-- its only test); cache/simplecached.c then reads no byte at a time, for ever.
use cache_server.Base.{
  ℕ, ◌<◌, ◌≡◌, refl, ap, ◌∙◌, Bool, true, false, inl, inr, Option, some, List, arith, length,
  if◌then◌else◌,
}
use cache_server.Base.Int.{ltb_ℤ, is_nonpos}
use cache_server.Channel.{
  Block, is_free, is_readable, Shared, Sys, sys, ServerPc, ProxyPc, PreadAnswer, bytes, error,
  SendAnswer, wrote_all, broke, serve_at, serve_cache, handle_at, handle_with_cache, to_size, start,
  file_len, fill, signal_writable,
}
use cache_server.Channel.{
  len_lock, len_hold, len_sleep, len_signal, data_test, data_lock, data_hold, data_sleep,
  data_signal, finished, failed, send_header,
}
use cache_server.Channel.Contract.{
  Step, serves, handles, wakes_server, wakes_proxy, Reach, here, step, wake, Answers,
}
use cache_server.Channel.Invariant.{
  Inv, Keeps, Keeps-if, Keeps-ite, Keeps-elim, stored, taken, ProxyRange,
}
use cache_server.Channel.Facts.{Slot-le}
use cache_server.Channel.Delivery.{Fits, Reach-Inv}
use cache_server.Channel.Progress.{Sound, ProxyFinished, progress}

-- The worker has stored nothing more, and the size of the area is as before.
abbrev Still : Sys → Sys → Type 0
Still s t = (stored t.server ≡ stored s.server) × (t.mem.block.datalen ≡ s.mem.block.datalen)

signal_writable-stored : (p : ServerPc) → stored (signal_writable p) ≡ stored p
unfolding signal_writable
signal_writable-stored len_sleep = refl
signal_writable-stored (data_sleep t) = refl
signal_writable-stored p = refl

test-stored : (b : Bool) (t : ℕ) → stored (if b then data_lock t else finished t) ≡ t
test-stored true t = refl
test-stored false t = refl

serve-Still :
    (file : Option (List ℕ)) (a : PreadAnswer) (m : Shared) (q : ProxyPc) (p : ServerPc)
    → to_size m.block.datalen ≡ 0
    → Answers file (to_size m.block.datalen) p a
    → Keeps (Still (sys m p q)) (serve_at file a m q p)
unfolding serve_at fill
serve-Still file a m q len_lock z ans =
    Keeps-if (Still (sys m len_lock q)) (is_free m.holder) _ (λ _. (refl, refl))
serve-Still file a m q len_hold z ans =
    Keeps-ite (Still (sys m len_hold q)) (is_readable m.block.status) _ _ (λ _. (refl, refl))
      (λ _.
        Keeps-ite (Still (sys m len_hold q)) (is_nonpos (file_len file)) _ _ (λ _. (refl, refl))
          (λ _. (refl, refl)))
serve-Still file a m q len_sleep z ans = tt
serve-Still file a m q len_signal z ans = (refl, refl)
serve-Still file a m q (data_test t) z ans = (test-stored (ltb_ℤ t (file_len file)) t, refl)
serve-Still file a m q (data_lock t) z ans =
    Keeps-if (Still (sys m (data_lock t) q)) (is_free m.holder) _ (λ _. (refl, refl))
serve-Still file error m q (data_hold t) z ans =
    Keeps-ite (Still (sys m (data_hold t) q)) (is_readable m.block.status) _ _ (λ _. (refl, refl))
      (λ _. (refl, refl))
serve-Still file (bytes bs) m q (data_hold t) z (from, few, some_read) =
    Keeps-ite (Still (sys m (data_hold t) q)) (is_readable m.block.status) _ _ (λ _. (refl, refl))
      (λ _. (omega (arith, few, z), refl))
serve-Still file a m q (data_sleep t) z ans = tt
serve-Still file a m q (data_signal t) z ans = (refl, refl)
serve-Still file a m q (finished t) z ans = tt
serve-Still file a m q (failed t) z ans = tt

handle-Still :
    (a : SendAnswer) (m : Shared) (p : ServerPc) (q : ProxyPc)
    → Keeps (Still (sys m p q)) (handle_at a m p q)
unfolding handle_at
handle-Still a m p len_lock =
    Keeps-if (Still (sys m p len_lock)) (is_free m.holder) _ (λ _. (refl, refl))
handle-Still a m p len_hold =
    Keeps-ite (Still (sys m p len_hold)) (is_readable m.block.status) _ _ (λ _. (refl, refl))
      (λ _. (refl, refl))
handle-Still a m p len_sleep = tt
handle-Still a m p (send_header fl) = (refl, refl)
handle-Still a m p (data_test fl t) = (refl, refl)
handle-Still a m p (data_lock fl t) =
    Keeps-if (Still (sys m p (data_lock fl t))) (is_free m.holder) _ (λ _. (refl, refl))
handle-Still wrote_all m p (data_hold fl t) =
    Keeps-ite (Still (sys m p (data_hold fl t))) (is_readable m.block.status) _ _
      (λ _. (refl, refl)) (λ _. (refl, refl))
handle-Still (broke k) m p (data_hold fl t) =
    Keeps-ite (Still (sys m p (data_hold fl t))) (is_readable m.block.status) _ _
      (λ _. (refl, refl)) (λ _. (refl, refl))
handle-Still a m p (data_sleep fl t) = tt
handle-Still a m p (data_signal fl t) = (signal_writable-stored p, refl)
handle-Still a m p (finished t) = tt
handle-Still a m p (failed t) = tt

abbrev Nothing : Sys → Type 0
Nothing s = (stored s.server ≡ 0) × (to_size s.mem.block.datalen ≡ 0)

start-Nothing : (n : ℕ) (old : Block) → Nothing (start n n old)
unfolding start
start-Nothing n old = ground arith

Reach-Nothing :
    (file : Option (List ℕ)) (n : ℕ) (old : Block) {s : Sys}
    → Reach file (start n n old) s
    → Nothing s
unfolding serve_cache handle_with_cache
Reach-Nothing file n old here = start-Nothing n old
Reach-Nothing file n old (step {t} {u} r (serves a ans e)) =
    let (none_stored, none_fits) = Reach-Nothing file n old r in
    let (same, same') =
      Keeps-elim (Still t) _ u (serve-Still file a t.mem t.proxy t.server none_fits ans) e in
    (same ∙ none_stored, ap to_size same' ∙ none_fits)
Reach-Nothing file n old (step {t} {u} r (handles a e)) =
    let (none_stored, none_fits) = Reach-Nothing file n old r in
    let (same, same') = Keeps-elim (Still t) _ u (handle-Still a t.mem t.server t.proxy) e in
    (same ∙ none_stored, ap to_size same' ∙ none_fits)
Reach-Nothing file n old (wake {t} r wakes_server) =
    let (none_stored, none_fits) = Reach-Nothing file n old r in
    (signal_writable-stored t.server ∙ none_stored, none_fits)
Reach-Nothing file n old (wake {t} r wakes_proxy) = Reach-Nothing file n old r

unfinished : (q : ProxyPc) (n : ℕ) → ProxyRange n q → taken q ≡ 0 → 0 < n → ¬ ProxyFinished q
unfinished len_lock n r z lt = λ h. h
unfinished (finished t) n r z lt = λ _. omega (arith, r, z, lt)
unfinished q n r z lt = λ h. h

-- With a segment of `sizeof(cache)` bytes, if the sizes fit, no request for a file with contents ever completes: the
-- handler never gets a byte and never finishes, and the two threads never stop on their own.
pub livelock :
    {bs : List ℕ} {header_size : ℕ} {old : Block} {s : Sys}
    → 0 < length bs
    → Fits (some bs) header_size header_size old
    → Reach (some bs) (start header_size header_size old) s
    → (taken s.proxy ≡ 0)
      × (¬ ProxyFinished s.proxy)
      × (Sound s → (t : Sys) × Step (some bs) s t × Sound t)
livelock {bs} {header_size} {old} {s} some_bytes f r = (none_taken, never, go)
  where
    i : Inv (some bs) s
    i = Reach-Inv f r

    none_taken : taken s.proxy ≡ 0
    none_taken = omega (
      arith,
      Slot-le bs s.mem.block (stored s.server) (taken s.proxy) s.mem.block.status i.slot,
      (Reach-Nothing (some bs) header_size old r).0,
    )

    never : ¬ ProxyFinished s.proxy
    never = unfinished s.proxy (length bs) i.proxy_range none_taken some_bytes

    go : Sound s → (t : Sys) × Step (some bs) s t × Sound t
    go sound = elim (progress f r sound) [ inl st ↦ st | inr (p, q) ↦ absurd (never q) ]
