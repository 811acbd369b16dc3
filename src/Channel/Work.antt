-- ===== src/Channel/Work.antt =====
-- cache/simplecached.c and cache/handle_with_cache.c: how much is left to do, and that each step of
-- either thread does some of it.
use cache_server.Base.{
  ℕ, suc, ◌+◌, ◌-◌, ◌*◌, ◌≤◌, ◌<◌, ◌≡◌, refl, ap, inl, inr, Option, some, List, ◌++◌, arith, length,
  take, length-append, length-drop, Bool-cases,
}
use cache_server.Base.Int.{ℤ, negsuc, ltb_ℤ, is_nonpos}
use cache_server.Channel.Facts.{not_readable, nonpos-nil, status_of_readable, status_of_writable}
use cache_server.Channel.{
  writable, readable, is_free, is_readable, nobody, Shared, Sys, sys, ServerPc, ProxyPc,
  PreadAnswer, bytes, error, SendAnswer, wrote_all, broke, serve_at, handle_at, to_size, file_len,
  fill, chunk, signal_readable, signal_writable,
}
use cache_server.Channel.{
  len_lock, len_hold, len_sleep, len_signal, data_test, data_lock, data_hold, data_sleep,
  data_signal, finished, failed, send_header,
}
use cache_server.Channel.Contract.{contents, Answers}
use cache_server.Channel.Invariant.{Inv, Keeps, Keeps-if, Keeps-ite, taken}

-- How many steps each thread can still take, for a file of `n` bytes; a signal may give the other
-- thread two steps back.
server_work : ℕ → ServerPc → ℕ
server_work n len_lock = 6 * n + 10
server_work n len_hold = 6 * n + 9
server_work n len_sleep = 6 * n + 8
server_work n len_signal = 6 * n + 7
server_work n (data_test t) = 6 * (n - t) + 4
server_work n (data_lock t) = 6 * (n - t) + 3
server_work n (data_hold t) = 6 * (n - t) + 2
server_work n (data_sleep t) = 6 * (n - t) + 1
server_work n (data_signal t) = 6 * (n - t) + 7
server_work n (finished t) = 0
server_work n (failed t) = 0

proxy_work : ℕ → ProxyPc → ℕ
proxy_work n len_lock = 6 * n + 8
proxy_work n len_hold = 6 * n + 7
proxy_work n len_sleep = 6 * n + 6
proxy_work n (send_header fl) = 6 * n + 5
proxy_work n (data_test fl t) = 6 * (n - t) + 4
proxy_work n (data_lock fl t) = 6 * (n - t) + 3
proxy_work n (data_hold fl t) = 6 * (n - t) + 2
proxy_work n (data_sleep fl t) = 6 * (n - t) + 1
proxy_work n (data_signal fl t) = 6 * (n - t) + 7
proxy_work n (finished t) = 0
proxy_work n (failed t) = 0

unfoldable pub work : Option (List ℕ) → Sys → ℕ
unfolding server_work proxy_work
work file s =
    server_work (length (contents file)) s.server + proxy_work (length (contents file)) s.proxy

-- A pending chunk is not empty.
abbrev pub Filled : Option (List ℕ) → Sys → Type 0
Filled file s =
    s.mem.block.status ≡ readable
    → taken s.proxy < length (contents file)
    → 0 < to_size s.mem.block.readlen

signal_readable-work : (n : ℕ) (q : ProxyPc) → proxy_work n (signal_readable q) ≤ proxy_work n q + 2
unfolding proxy_work signal_readable
signal_readable-work n len_sleep = omega arith
signal_readable-work n q = omega arith

signal_writable-work :
    (n : ℕ) (p : ServerPc) → server_work n (signal_writable p) ≤ server_work n p + 2
unfolding server_work signal_writable
signal_writable-work n len_sleep = omega arith
signal_writable-work n p = omega arith

pub wake_server-work :
    (file : Option (List ℕ)) (s : Sys)
    → work file (sys s.mem (signal_writable s.server) s.proxy) ≤ work file s + 2
unfolding work
wake_server-work file s = omega (arith, signal_writable-work (length (contents file)) s.server)

pub wake_proxy-work :
    (file : Option (List ℕ)) (s : Sys)
    → work file (sys s.mem s.server (signal_readable s.proxy)) ≤ work file s + 2
unfolding work
wake_proxy-work file s = omega (arith, signal_readable-work (length (contents file)) s.proxy)

-- A step of the worker leaves less to do, and keeps a pending chunk non-empty.
abbrev pub Less : Option (List ℕ) → Sys → Sys → Type 0
Less file s t =
    (suc (work file t) ≤ work file s) × Filled file t × (t.mem.block.datalen ≡ s.mem.block.datalen)

pub Filled-signal :
    (file : Option (List ℕ)) (m : Shared) (q : ProxyPc)
    → (m.block.status ≡ readable → taken q < length (contents file) → 0 < to_size m.block.readlen)
    → m.block.status ≡ readable
    → taken (signal_readable q) < length (contents file)
    → 0 < to_size m.block.readlen
unfolding signal_readable
Filled-signal file m len_sleep f = f
Filled-signal file m (data_sleep fl t) f = f
Filled-signal file m q f = f

module _ (file : Option (List ℕ)) (a : PreadAnswer) (m : Shared) (q : ProxyPc) where
  serve-pread-Less :
      (t : ℕ) (b : PreadAnswer)
      → Inv file (sys m (data_hold t) q)
      → Filled file (sys m (data_hold t) q)
      → 0 < to_size m.block.datalen
      → Answers file (to_size m.block.datalen) (data_hold t) b
      → m.block.status ≡ writable
      → Keeps (Less file (sys m (data_hold t) q)) (elim b [
        | error ↦
            some (sys (record m { block = record (m.block) { readlen = negsuc 0 } }) (failed t) q)
        | bytes bs ↦ some (
            sys
              (record m { block = fill bs m.block; holder = nobody })
              (data_signal (t + length bs))
              q)
      ])
  unfolding work fill
  serve-pread-Less t error i f room ans w =
      (omega arith, λ r _. absurd (not_readable m.block.status w (ap is_readable r)), refl)
  serve-pread-Less t (bytes bs) i f room ((rest, at), few, some_read) w =
      let fits : t + length bs ≤ length (contents file) = omega (
        arith,
        length-drop t (contents file),
        length-append bs rest,
        ap length at,
        i.server_range,
      ) in
      let got : 0 < length bs = some_read room i.server_range in
      (omega (arith, fits, got, i.server_range), λ _ _. omega (arith, got, fits, i.small), refl)

  pub serve-Less :
      (p : ServerPc)
      → Inv file (sys m p q)
      → Filled file (sys m p q)
      → 0 < to_size m.block.datalen
      → Answers file (to_size m.block.datalen) p a
      → Keeps (Less file (sys m p q)) (serve_at file a m q p)
  unfolding serve_at work
  serve-Less len_lock i f room ans =
      Keeps-if (Less file (sys m len_lock q)) (is_free m.holder) _ (λ e. (omega arith, f, refl))
  serve-Less len_hold i f room ans =
      Keeps-ite (Less file (sys m len_hold q)) (is_readable m.block.status) _ _
        (λ e. absurd (not_readable m.block.status i.early.0 e))
        (λ _.
          Keeps-ite (Less file (sys m len_hold q)) (is_nonpos (file_len file)) _ _
            (λ e. (
              omega arith,
              λ _ lt. absurd (omega (arith, lt, ap length (nonpos-nil file e))),
              refl,
            ))
            (λ _. (omega arith, f, refl)))
  serve-Less len_sleep i f room ans = tt
  serve-Less len_signal i f room ans = (
    omega (arith, signal_readable-work (length (contents file)) q),
    Filled-signal file m q f,
    refl,
  )
  serve-Less (data_test t) i f room ans = elim (Bool-cases (ltb_ℤ t (file_len file))) [
    | inl e ↦ rw e (omega arith, f, refl)
    | inr e ↦ rw e (omega arith, f, refl)
  ]
  serve-Less (data_lock t) i f room ans =
      Keeps-if (Less file (sys m (data_lock t) q)) (is_free m.holder) _
        (λ e. (omega arith, f, refl))
  serve-Less (data_hold t) i f room ans =
      Keeps-ite (Less file (sys m (data_hold t) q)) (is_readable m.block.status) _ _
        (λ e. (omega arith, f, refl))
        (λ e. serve-pread-Less t a i f room ans (status_of_writable m.block.status e))
  serve-Less (data_sleep t) i f room ans = tt
  serve-Less (data_signal t) i f room ans = (
    omega (arith, signal_readable-work (length (contents file)) q),
    Filled-signal file m q f,
    refl,
  )
  serve-Less (finished t) i f room ans = tt
  serve-Less (failed t) i f room ans = tt

module _ (file : Option (List ℕ)) (a : SendAnswer) (m : Shared) (p : ServerPc) where
  handle-chunk-Less :
      (fl : ℤ) (t : ℕ) (b : SendAnswer)
      → Inv file (sys m p (data_hold fl t))
      → Filled file (sys m p (data_hold fl t))
      → m.block.status ≡ readable
      → Keeps (Less file (sys m p (data_hold fl t))) (elim b [
        | wrote_all ↦ some (
            sys
              (record m {
                block = record (m.block) { status = writable };
                holder = nobody;
                sent = m.sent ++ chunk m.block;
              })
              p
              (data_signal fl (t + to_size m.block.readlen)))
        | broke k ↦ some (sys (record m { sent = m.sent ++ take k (chunk m.block) }) p (failed t))
      ])
  unfolding work
  handle-chunk-Less fl t wrote_all i f r =
      let got : 0 < to_size m.block.readlen = f r i.proxy_range in
      (omega (arith, got, i.proxy_range), λ e. cc, refl)
  handle-chunk-Less fl t (broke k) i f r = (omega (arith, i.proxy_range), f, refl)

  pub handle-Less :
      (q : ProxyPc)
      → Inv file (sys m p q)
      → Filled file (sys m p q)
      → Keeps (Less file (sys m p q)) (handle_at a m p q)
  unfolding handle_at work
  handle-Less len_lock i f =
      Keeps-if (Less file (sys m p len_lock)) (is_free m.holder) _ (λ e. (omega arith, f, refl))
  handle-Less len_hold i f =
      Keeps-ite (Less file (sys m p len_hold)) (is_readable m.block.status) _ _
        (λ e. (omega arith, f, refl)) (λ e. (omega arith, f, refl))
  handle-Less len_sleep i f = tt
  handle-Less (send_header fl) i f = (omega arith, f, refl)
  handle-Less (data_test fl t) i f = elim (Bool-cases (ltb_ℤ t fl)) [
    | inl e ↦ rw e (omega arith, f, refl)
    | inr e ↦ rw e (omega arith, f, refl)
  ]
  handle-Less (data_lock fl t) i f =
      Keeps-if (Less file (sys m p (data_lock fl t))) (is_free m.holder) _
        (λ e. (omega arith, f, refl))
  handle-Less (data_hold fl t) i f =
      Keeps-ite (Less file (sys m p (data_hold fl t))) (is_readable m.block.status) _ _
        (λ e. handle-chunk-Less fl t a i f (status_of_readable m.block.status e))
        (λ e. (omega arith, f, refl))
  handle-Less (data_sleep fl t) i f = tt
  handle-Less (data_signal fl t) i f =
      (omega (arith, signal_writable-work (length (contents file)) p), f, refl)
  handle-Less (finished t) i f = tt
  handle-Less (failed t) i f = tt
