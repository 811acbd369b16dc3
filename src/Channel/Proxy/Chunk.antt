-- ===== src/Channel/Proxy/Chunk.antt =====
-- cache/handle_with_cache.c: the critical section in which `handle_with_cache` sends a chunk keeps the
-- channel's invariant.
use cache_server.Base.{ℕ, ◌+◌, ◌≡◌, inl, Option, some, List, ◌++◌, arith, take}
use cache_server.Base.Int.{ℤ}
use cache_server.Channel.{
  writable, readable, is_readable, nobody, Shared, sys, SendAnswer, wrote_all, broke, handle_at,
  file_len, chunk, ServerPc, to_size,
}
use cache_server.Channel.{data_hold, data_sleep, data_signal, failed}
use cache_server.Channel.Contract.{contents}
use cache_server.Channel.Invariant.{Inv, Keeps, Keeps-ite, stored, server_in}
use cache_server.Channel.Facts.{
  proxy_released, ServerSleeps-quiet, ServerSleeps-signal, status_of_readable, status_of_writable,
}
use cache_server.Channel.Facts.Sent.{
  Slot-Pending, Early-take, Announced-take, Sent-chunk, Sent-part,
}

module _ (file : Option (List ℕ)) (a : SendAnswer) (m : Shared) where
  handle-chunk :
      (p : ServerPc) (fl : ℤ) (t : ℕ) (b : SendAnswer)
      → Inv file (sys m p (data_hold fl t))
      → m.block.status ≡ readable
      → Keeps (Inv file) (elim b [
        | wrote_all ↦ some (
            sys
              (record m {
                block = record (m.block) { status = writable };
                holder = nobody;
                sent = m.sent ++ chunk m.block;
              })
              p
              (data_signal fl (t + to_size m.block.readlen)))
        | broke k ↦ some (sys (record m { sent = m.sent ++ take k (chunk m.block) }) p (failed t))
      ])
  handle-chunk p fl t wrote_all i r =
      let pending =
        Slot-Pending (contents file) m.block (stored p) t m.block.status
          (omega (arith, i.small, i.bounded)) r i.slot in
      record {
        small = i.small;
        holder = proxy_released m.holder (server_in p) i.holder;
        early = Early-take p m.block i.early;
        announced = Announced-take (file_len file) p m.block i.announced;
        copied = i.copied;
        headed = i.headed;
        server_range = i.server_range;
        proxy_range = tt;
        bounded = i.bounded;
        server_sleeps =
            ServerSleeps-signal p writable (data_signal fl (t + to_size m.block.readlen)) tt;
        proxy_sleeps = tt;
        told = tt;
        slot = pending.moved;
        sent = Sent-chunk (contents file) m.sent m.block (stored p) t pending i.sent;
        room = i.room;
      }
  handle-chunk p fl t (broke k) i r =
      let pending =
        Slot-Pending (contents file) m.block (stored p) t m.block.status
          (omega (arith, i.small, i.bounded)) r i.slot in
      record {
        small = i.small;
        holder = i.holder;
        early = i.early;
        announced = i.announced;
        copied = tt;
        headed = i.headed;
        server_range = i.server_range;
        proxy_range = tt;
        bounded = i.bounded;
        server_sleeps =
            ServerSleeps-quiet p m.block.status (data_hold fl t) (failed t) (λ h. h)
              i.server_sleeps;
        proxy_sleeps = tt;
        told = tt;
        slot = i.slot;
        sent = Sent-part (contents file) m.sent m.block (stored p) t k pending i.sent;
        room = i.room;
      }

  pub handle-data_hold :
      (p : ServerPc) (fl : ℤ) (t : ℕ)
      → Inv file (sys m p (data_hold fl t))
      → Keeps (Inv file) (handle_at a m p (data_hold fl t))
  unfolding handle_at
  handle-data_hold p fl t i =
      Keeps-ite (Inv file) (is_readable m.block.status) _ _
        (λ e. handle-chunk p fl t a i (status_of_readable m.block.status e))
        (λ e. record {
          small = i.small;
          holder = proxy_released m.holder (server_in p) i.holder;
          early = i.early;
          announced = i.announced;
          copied = i.copied;
          headed = i.headed;
          server_range = i.server_range;
          proxy_range = i.proxy_range;
          bounded = i.bounded;
          server_sleeps =
              ServerSleeps-quiet p m.block.status (data_hold fl t) (data_sleep fl t) (λ h. h)
                i.server_sleeps;
          proxy_sleeps = inl (status_of_writable m.block.status e);
          told = tt;
          slot = i.slot;
          sent = i.sent;
          room = i.room;
        })
