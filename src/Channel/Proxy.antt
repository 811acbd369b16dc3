-- ===== src/Channel/Proxy.antt =====
-- cache/handle_with_cache.c: every step of `handle_with_cache` keeps the channel's invariant.
mod Chunk
use cache_server.Base.{
  ℕ, ◌+◌, ◌≤◌, ◌≡◌, sym, ap, ◌∙◌, Bool-cases, inl, inr, Option, some, List, ◌++◌, arith, length,
  take,
}
use cache_server.Base.Int.{ℤ, ltb_ℤ}
use native.Mathlib.Nat.{le_trans}
use cache_server.Channel.{
  writable, readable, is_free, is_readable, nobody, Shared, Sys, sys, SendAnswer, wrote_all, broke,
  handle_at, handle_with_cache, file_len, chunk, header_for, ServerPc, ProxyPc, to_size,
}
use cache_server.Channel.{
  len_lock, len_hold, len_sleep, data_test, data_lock, data_hold, data_sleep, data_signal, finished,
  failed, send_header,
}
use cache_server.Channel.Contract.{contents}
use cache_server.Channel.Invariant.{Inv, Keeps, Keeps-if, Keeps-ite, Keeps-elim, stored, server_in}
use cache_server.Channel.Facts.{
  proxy_released, ServerSleeps-quiet, ServerSleeps-signal, status_of_readable, status_of_writable,
  test_passes, test_fails, Slot-le,
}
use cache_server.Channel.Facts.Sent.{
  Slot-Pending, late_of_readable, Early-take, Announced-take, Sent-chunk, Sent-part,
}
use cache_server.Channel.Proxy.Chunk.{handle-data_hold}

module _ (file : Option (List ℕ)) (a : SendAnswer) (m : Shared) where
  handle-lock :
      (p : ServerPc) → Inv file (sys m p len_lock) → Keeps (Inv file) (handle_at a m p len_lock)
  unfolding handle_at
  handle-lock p i = Keeps-if (Inv file) (is_free m.holder) _ (λ e. ground arith)

  handle-data_lock :
      (p : ServerPc) (fl : ℤ) (t : ℕ)
      → Inv file (sys m p (data_lock fl t))
      → Keeps (Inv file) (handle_at a m p (data_lock fl t))
  unfolding handle_at
  handle-data_lock p fl t i = Keeps-if (Inv file) (is_free m.holder) _ (λ e. ground arith)

  handle-send_header :
      (p : ServerPc) (fl : ℤ)
      → Inv file (sys m p (send_header fl))
      → Keeps (Inv file) (handle_at a m p (send_header fl))
  unfolding handle_at
  handle-send_header p fl i = record {
    small = i.small;
    holder = i.holder;
    early = i.early;
    announced = i.announced;
    copied = i.copied;
    headed = ap (λ x. some (header_for x)) i.copied;
    server_range = i.server_range;
    proxy_range = tt;
    bounded = i.bounded;
    server_sleeps =
        ServerSleeps-quiet p m.block.status (send_header fl) (data_test fl 0) (λ h. h)
          i.server_sleeps;
    proxy_sleeps = tt;
    told = tt;
    slot = i.slot;
    sent = i.sent;
    room = i.room;
  }

  handle-data_test :
      (p : ServerPc) (fl : ℤ) (t : ℕ)
      → Inv file (sys m p (data_test fl t))
      → Keeps (Inv file) (handle_at a m p (data_test fl t))
  unfolding handle_at
  handle-data_test p fl t i =
      let le : t ≤ length (contents file) =
        le_trans (Slot-le (contents file) m.block (stored p) t m.block.status i.slot) i.bounded in
      elim (Bool-cases (ltb_ℤ t fl)) [
        | inl e ↦ rw e (record {
          small = i.small;
          holder = i.holder;
          early = i.early;
          announced = i.announced;
          copied = i.copied;
          headed = i.headed;
          server_range = i.server_range;
          proxy_range = test_passes file t (ap (ltb_ℤ t) (sym i.copied) ∙ e);
          bounded = i.bounded;
          server_sleeps =
              ServerSleeps-quiet p m.block.status (data_test fl t) (data_lock fl t) (λ h. h)
                i.server_sleeps;
          proxy_sleeps = tt;
          told = tt;
          slot = i.slot;
          sent = i.sent;
          room = i.room;
        })
        | inr e ↦ rw e (record {
          small = i.small;
          holder = i.holder;
          early = i.early;
          announced = i.announced;
          copied = tt;
          headed = i.headed;
          server_range = i.server_range;
          proxy_range = test_fails file t (ap (ltb_ℤ t) (sym i.copied) ∙ e) le;
          bounded = i.bounded;
          server_sleeps =
              ServerSleeps-quiet p m.block.status (data_test fl t) (finished t) (λ h. h)
                i.server_sleeps;
          proxy_sleeps = tt;
          told = tt;
          slot = i.slot;
          sent = i.sent;
          room = i.room;
        })
      ]

  handle-data_signal :
      (p : ServerPc) (fl : ℤ) (t : ℕ)
      → Inv file (sys m p (data_signal fl t))
      → Keeps (Inv file) (handle_at a m p (data_signal fl t))
  unfolding handle_at
  handle-data_signal len_sleep fl t i = ground arith
  handle-data_signal p fl t i = ground arith

  handle-len_hold :
      (p : ServerPc) → Inv file (sys m p len_hold) → Keeps (Inv file) (handle_at a m p len_hold)
  unfolding handle_at
  handle-len_hold p i =
      Keeps-ite (Inv file) (is_readable m.block.status) _ _
        (λ e. record {
          small = i.small;
          holder = proxy_released m.holder (server_in p) i.holder;
          early = i.early;
          announced = i.announced;
          copied =
              late_of_readable (file_len file) p m.block i.early i.announced
                (status_of_readable m.block.status e);
          headed = i.headed;
          server_range = i.server_range;
          proxy_range = i.proxy_range;
          bounded = i.bounded;
          server_sleeps =
              ServerSleeps-quiet p m.block.status len_hold (send_header m.block.filelen) (λ h. h)
                i.server_sleeps;
          proxy_sleeps = tt;
          told = tt;
          slot = i.slot;
          sent = i.sent;
          room = i.room;
        })
        (λ e. record {
          small = i.small;
          holder = proxy_released m.holder (server_in p) i.holder;
          early = i.early;
          announced = i.announced;
          copied = i.copied;
          headed = i.headed;
          server_range = i.server_range;
          proxy_range = i.proxy_range;
          bounded = i.bounded;
          server_sleeps =
              ServerSleeps-quiet p m.block.status len_hold len_sleep (λ h. h) i.server_sleeps;
          proxy_sleeps = inl (status_of_writable m.block.status e);
          told = i.told;
          slot = i.slot;
          sent = i.sent;
          room = i.room;
        })

  handle_at-Inv :
      (p : ServerPc) (q : ProxyPc) → Inv file (sys m p q) → Keeps (Inv file) (handle_at a m p q)
  unfolding handle_at
  handle_at-Inv p len_lock i = handle-lock p i
  handle_at-Inv p len_hold i = handle-len_hold p i
  handle_at-Inv p len_sleep i = tt
  handle_at-Inv p (send_header fl) i = handle-send_header p fl i
  handle_at-Inv p (data_test fl t) i = handle-data_test p fl t i
  handle_at-Inv p (data_lock fl t) i = handle-data_lock p fl t i
  handle_at-Inv p (data_hold fl t) i = handle-data_hold file a m p fl t i
  handle_at-Inv p (data_sleep fl t) i = tt
  handle_at-Inv p (data_signal fl t) i = handle-data_signal p fl t i
  handle_at-Inv p (finished t) i = tt
  handle_at-Inv p (failed t) i = tt

-- A step of the handler keeps the invariant.
pub handle_with_cache-Inv :
    (file : Option (List ℕ)) (a : SendAnswer) (s t : Sys)
    → Inv file s
    → handle_with_cache a s ≡ some t
    → Inv file t
unfolding handle_with_cache
handle_with_cache-Inv file a s t i e =
    Keeps-elim (Inv file) _ t (handle_at-Inv file a s.mem s.server s.proxy i) e
