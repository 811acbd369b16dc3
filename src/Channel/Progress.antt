-- ===== src/Channel/Progress.antt =====
-- cache/simplecached.c and cache/handle_with_cache.c: neither thread waits for a signal that is
-- never sent.
use cache_server.Base.{
  ℕ, ◌≡◌, refl, sym, Bool, true, false, ◌⊎◌, inl, inr, Option, none, some, List, arith,
  if◌then◌else◌, take, drop, length-take, length-drop, take-append-drop,
}
use cache_server.Base.Int.{ℤ, is_nonpos, ltb_ℤ}
use cache_server.Channel.{
  Block, is_free, Holder, Shared, Sys, sys, ServerPc, ProxyPc, PreadAnswer, bytes, error, wrote_all,
  is_readable, serve_at, serve_cache, handle_at, handle_with_cache, to_size, start, file_len,
  signal_readable, signal_writable,
}
use cache_server.Channel.{
  len_lock, len_hold, len_sleep, len_signal, data_test, data_lock, data_hold, data_sleep,
  data_signal, finished, failed, send_header,
}
use cache_server.Channel.Contract.{contents, Step, serves, handles, Reach, Answers, IsPread}
use cache_server.Channel.Invariant.{Inv}
use cache_server.Channel.Facts.{some_follows}
use cache_server.Channel.Delivery.{Fits, Reach-Inv}

-- Where each thread can take a step by itself.
abbrev CanServe : Holder → ServerPc → Type 0
CanServe h len_lock = is_free h ≡ true
CanServe h (data_lock t) = is_free h ≡ true
CanServe h len_sleep = ⊥
CanServe h (data_sleep t) = ⊥
CanServe h (finished t) = ⊥
CanServe h (failed t) = ⊥
CanServe h _ = Unit

abbrev CanHandle : Holder → ProxyPc → Type 0
CanHandle h len_lock = is_free h ≡ true
CanHandle h (data_lock fl t) = is_free h ≡ true
CanHandle h len_sleep = ⊥
CanHandle h (data_sleep fl t) = ⊥
CanHandle h (finished t) = ⊥
CanHandle h (failed t) = ⊥
CanHandle h _ = Unit

abbrev pub ServerFailed : ServerPc → Type 0
ServerFailed (failed t) = Unit
ServerFailed _ = ⊥

abbrev pub ProxyFailed : ProxyPc → Type 0
ProxyFailed (failed t) = Unit
ProxyFailed _ = ⊥

abbrev pub ServerFinished : ServerPc → Type 0
ServerFinished (finished t) = Unit
ServerFinished _ = ⊥

abbrev pub ProxyFinished : ProxyPc → Type 0
ProxyFinished (finished t) = Unit
ProxyFinished _ = ⊥

someone_can :
    (file : Option (List ℕ)) (m : Shared) (p : ServerPc) (q : ProxyPc)
    → Inv file (sys m p q)
    → ¬ ServerFailed p
    → ¬ ProxyFailed q
    → CanServe m.holder p ⊎ CanHandle m.holder q ⊎ (ServerFinished p × ProxyFinished q)
someone_can file m len_lock len_lock i a b = ground arith
someone_can file m p len_sleep i a b = ground (arith, some_follows file)
someone_can file m p q i a b = ground (arith, some_follows file)

-- An answer that `pread` may give: all that fits.
full_read :
    (content : List ℕ) (count offset : ℕ)
    → IsPread content count offset (bytes (take count (drop offset content)))
full_read content count offset = (
  (drop count (drop offset content), sym (take-append-drop count (drop offset content))),
  omega (arith, length-take count (drop offset content)),
  λ p q. omega (arith, length-take count (drop offset content), length-drop offset content, p, q),
)

-- The answer that keeps the worker from failing.
abbrev pub good_answer : Option (List ℕ) → ℕ → ServerPc → PreadAnswer
good_answer file count (data_hold t) = bytes (take count (drop t (contents file)))
good_answer file count _ = error

pub good_answer-Answers :
    (file : Option (List ℕ)) (count : ℕ) (p : ServerPc)
    → Answers file count p (good_answer file count p)
good_answer-Answers file count len_lock = tt
good_answer-Answers file count (data_hold t) = full_read (contents file) count t
good_answer-Answers file count p = tt

-- Neither thread has failed.
abbrev pub Sound : Sys → Type 0
Sound s = (¬ ServerFailed s.server) × (¬ ProxyFailed s.proxy)

abbrev Moves : Option Sys → Type 0
Moves o = (t : Sys) × (o ≡ some t) × Sound t

Moves-if :
    (b : Bool) (t : Sys) (o : Option Sys) → b ≡ true → Sound t → Moves (if b then some t else o)
Moves-if true t o e ok = (t, refl, ok)
Moves-if false t o e ok = cc

Moves-ite : (b : Bool) (o o' : Option Sys) → Moves o → Moves o' → Moves (if b then o else o')
Moves-ite true o o' h h' = h
Moves-ite false o o' h h' = h'

signal_readable_sound : (q : ProxyPc) → ¬ ProxyFailed q → ¬ ProxyFailed (signal_readable q)
unfolding signal_readable
signal_readable_sound len_sleep h = λ x. x
signal_readable_sound (data_sleep fl t) h = λ x. x
signal_readable_sound q h = h

signal_writable_sound : (p : ServerPc) → ¬ ServerFailed p → ¬ ServerFailed (signal_writable p)
unfolding signal_writable
signal_writable_sound len_sleep h = λ x. x
signal_writable_sound (data_sleep t) h = λ x. x
signal_writable_sound p h = h

ServerFailed-test : (b : Bool) (t : ℕ) → ¬ ServerFailed (if b then data_lock t else finished t)
ServerFailed-test true t h = h
ServerFailed-test false t h = h

ProxyFailed-test :
    (b : Bool) (fl : ℤ) (t : ℕ) → ¬ ProxyFailed (if b then data_lock fl t else finished t)
ProxyFailed-test true fl t h = h
ProxyFailed-test false fl t h = h

serve-Moves :
    (file : Option (List ℕ)) (count : ℕ) (m : Shared) (p : ServerPc) (q : ProxyPc)
    → CanServe m.holder p
    → ¬ ProxyFailed q
    → Moves (serve_at file (good_answer file count p) m q p)
unfolding serve_at
serve-Moves file n m len_lock q c h = Moves-if (is_free m.holder) _ none c ((λ x. x), h)
serve-Moves file n m len_hold q c h =
    Moves-ite (is_readable m.block.status) _ _ (_, refl, ((λ x. x), h))
      (Moves-ite (is_nonpos (file_len file)) _ _ (_, refl, ((λ x. x), h)) (_, refl, ((λ x. x), h)))
serve-Moves file n m len_sleep q c h = absurd c
serve-Moves file n m len_signal q c h = (_, refl, ((λ x. x), signal_readable_sound q h))
serve-Moves file n m (data_test t) q c h =
    (_, refl, (ServerFailed-test (ltb_ℤ t (file_len file)) t, h))
serve-Moves file n m (data_lock t) q c h = Moves-if (is_free m.holder) _ none c ((λ x. x), h)
serve-Moves file n m (data_hold t) q c h =
    Moves-ite (is_readable m.block.status) _ _ (_, refl, ((λ x. x), h)) (_, refl, ((λ x. x), h))
serve-Moves file n m (data_sleep t) q c h = absurd c
serve-Moves file n m (data_signal t) q c h = (_, refl, ((λ x. x), signal_readable_sound q h))
serve-Moves file n m (finished t) q c h = absurd c
serve-Moves file n m (failed t) q c h = absurd c

handle-Moves :
    (m : Shared) (p : ServerPc) (q : ProxyPc)
    → CanHandle m.holder q
    → ¬ ServerFailed p
    → Moves (handle_at wrote_all m p q)
unfolding handle_at
handle-Moves m p len_lock c h = Moves-if (is_free m.holder) _ none c (h, λ x. x)
handle-Moves m p len_hold c h =
    Moves-ite (is_readable m.block.status) _ _ (_, refl, (h, λ x. x)) (_, refl, (h, λ x. x))
handle-Moves m p len_sleep c h = absurd c
handle-Moves m p (send_header fl) c h = (_, refl, (h, λ x. x))
handle-Moves m p (data_test fl t) c h = (_, refl, (h, ProxyFailed-test (ltb_ℤ t fl) fl t))
handle-Moves m p (data_lock fl t) c h = Moves-if (is_free m.holder) _ none c (h, λ x. x)
handle-Moves m p (data_hold fl t) c h =
    Moves-ite (is_readable m.block.status) _ _ (_, refl, (h, λ x. x)) (_, refl, (h, λ x. x))
handle-Moves m p (data_sleep fl t) c h = absurd c
handle-Moves m p (data_signal fl t) c h = (_, refl, (signal_writable_sound p h, λ x. x))
handle-Moves m p (finished t) c h = absurd c
handle-Moves m p (failed t) c h = absurd c

-- No deadlock, if the sizes fit: while neither thread has failed, one of them can take a step into a
-- state where neither has failed, or both have finished.
pub progress :
    {file : Option (List ℕ)} {header_size segsize : ℕ} {old : Block} {s : Sys}
    → Fits file header_size segsize old
    → Reach file (start header_size segsize old) s
    → Sound s
    → ((t : Sys) × Step file s t × Sound t) ⊎ (ServerFinished s.server × ProxyFinished s.proxy)
unfolding serve_cache handle_with_cache
progress {file} {s} f r ok =
    elim (someone_can file s.mem s.server s.proxy (Reach-Inv f r) ok.0 ok.1) [
      | inl c ↦
          let count = to_size s.mem.block.datalen in
          let ans = good_answer file count s.server in
          let (t, e, ok') = serve-Moves file count s.mem s.server s.proxy c ok.1 in
          inl (t, serves ans (good_answer-Answers file count s.server) e, ok')
      | inr (inl c) ↦
          let (t, e, ok') = handle-Moves s.mem s.server s.proxy c ok.0 in
          inl (t, handles wrote_all e, ok')
      | inr (inr c) ↦ inr c
    ]
