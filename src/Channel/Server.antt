-- ===== src/Channel/Server.antt =====
-- cache/simplecached.c: every step of `serve_cache` keeps the channel's invariant.
mod Pread
use cache_server.Base.{
  ℕ, ◌+◌, ◌≡◌, refl, ap, inl, inr, Option, some, List, arith, length, drop, length-append,
  length-drop, drop-nil,
}
use cache_server.Base.Int.{negsuc, is_nonpos}
use cache_server.Channel.{
  writable, readable, is_free, is_readable, nobody, Shared, Sys, sys, PreadAnswer, bytes, error,
  serve_at, serve_cache, file_len, fill, ServerPc, ProxyPc, to_size,
}
use cache_server.Channel.{
  len_lock, len_hold, len_sleep, len_signal, data_test, data_lock, data_hold, data_sleep,
  data_signal, finished, failed,
}
use cache_server.Channel.Contract.{contents, Answers}
use cache_server.Channel.Invariant.{Inv, Keeps, Keeps-if, Keeps-ite, Keeps-elim, taken, proxy_in}
use cache_server.Channel.Facts.{
  server_released, ProxySleeps-quiet, ProxySleeps-signal, ProxySleeps-writable, status_of_readable,
  status_of_writable, not_readable, Slot-writable, Slot-of_eq, Slot-fill, nonpos-nil, Told-move,
}
use cache_server.Channel.Server.Pread.{serve-data_hold}

module _ (file : Option (List ℕ)) (a : PreadAnswer) (m : Shared) where
  serve-lock :
      (q : ProxyPc) → Inv file (sys m len_lock q) → Keeps (Inv file) (serve_at file a m q len_lock)
  unfolding serve_at
  serve-lock q i = Keeps-if (Inv file) (is_free m.holder) _ (λ e. ground arith)

  serve-data_lock :
      (q : ProxyPc) (t : ℕ)
      → Inv file (sys m (data_lock t) q)
      → Keeps (Inv file) (serve_at file a m q (data_lock t))
  unfolding serve_at
  serve-data_lock q t i = Keeps-if (Inv file) (is_free m.holder) _ (λ e. ground arith)

  serve-len_hold :
      (q : ProxyPc) → Inv file (sys m len_hold q) → Keeps (Inv file) (serve_at file a m q len_hold)
  unfolding serve_at
  serve-len_hold q i =
      let w : m.block.status ≡ writable = i.early.0 in
      let none_taken : 0 ≡ taken q =
        Slot-writable (contents file) m.block 0 (taken q) m.block.status w i.slot in
      Keeps-ite (Inv file) (is_readable m.block.status) _ _
        (λ e. absurd (not_readable m.block.status w e))
        (λ _.
          Keeps-ite (Inv file) (is_nonpos (file_len file)) _ _
            (λ e. record {
              small = i.small;
              holder = server_released m.holder (proxy_in q) i.holder;
              early = tt;
              announced = refl;
              copied = i.copied;
              headed = i.headed;
              server_range = tt;
              proxy_range = i.proxy_range;
              bounded = i.bounded;
              server_sleeps = tt;
              proxy_sleeps = ProxySleeps-signal q readable len_signal tt;
              told =
                  Told-move (is_nonpos (file_len file)) q len_hold len_signal m.block.status
                    readable (λ h. inr refl) i.told;
              slot = (
                0,
                i.early.1,
                omega (arith, none_taken),
                rw (nonpos-nil file e, drop-nil (taken q)),
              );
              sent = i.sent;
              room = i.room;
            })
            (λ e. record {
              small = i.small;
              holder = server_released m.holder (proxy_in q) i.holder;
              early = tt;
              announced = refl;
              copied = i.copied;
              headed = i.headed;
              server_range = tt;
              proxy_range = i.proxy_range;
              bounded = i.bounded;
              server_sleeps = tt;
              proxy_sleeps = ProxySleeps-writable q m.block.status (data_test 0) w;
              told =
                  Told-move (is_nonpos (file_len file)) q len_hold (data_test 0) m.block.status
                    m.block.status (λ h. inl e) i.told;
              slot =
                  Slot-of_eq (contents file) (record (m.block) { filelen = file_len file }) 0
                    (taken q) m.block.status w none_taken;
              sent = i.sent;
              room = i.room;
            }))

  serve-data_test :
      (q : ProxyPc) (t : ℕ)
      → Inv file (sys m (data_test t) q)
      → Keeps (Inv file) (serve_at file a m q (data_test t))
  unfolding serve_at
  serve-data_test q t i = ground arith

  serve-data_signal :
      (q : ProxyPc) (t : ℕ)
      → Inv file (sys m (data_signal t) q)
      → Keeps (Inv file) (serve_at file a m q (data_signal t))
  unfolding serve_at
  serve-data_signal len_sleep t i = ground arith
  serve-data_signal q t i = ground arith

  serve-len_signal :
      (q : ProxyPc)
      → Inv file (sys m len_signal q)
      → Keeps (Inv file) (serve_at file a m q len_signal)
  unfolding serve_at
  serve-len_signal len_sleep i = ground arith
  serve-len_signal q i = ground arith

  serve_at-Inv :
      (q : ProxyPc) (p : ServerPc)
      → Inv file (sys m p q)
      → Answers file (to_size m.block.datalen) p a
      → Keeps (Inv file) (serve_at file a m q p)
  unfolding serve_at
  serve_at-Inv q len_lock i ans = serve-lock q i
  serve_at-Inv q len_hold i ans = serve-len_hold q i
  serve_at-Inv q len_sleep i ans = tt
  serve_at-Inv q len_signal i ans = serve-len_signal q i
  serve_at-Inv q (data_test t) i ans = serve-data_test q t i
  serve_at-Inv q (data_lock t) i ans = serve-data_lock q t i
  serve_at-Inv q (data_hold t) i ans = serve-data_hold file a m q t i ans
  serve_at-Inv q (data_sleep t) i ans = tt
  serve_at-Inv q (data_signal t) i ans = serve-data_signal q t i
  serve_at-Inv q (finished t) i ans = tt
  serve_at-Inv q (failed t) i ans = tt

-- A step of the worker keeps the invariant.
pub serve_cache-Inv :
    (file : Option (List ℕ)) (a : PreadAnswer) (s t : Sys)
    → Inv file s
    → Answers file (to_size s.mem.block.datalen) s.server a
    → serve_cache file a s ≡ some t
    → Inv file t
unfolding serve_cache
serve_cache-Inv file a s t i ans e =
    Keeps-elim (Inv file) _ t (serve_at-Inv file a s.mem s.proxy s.server i ans) e
