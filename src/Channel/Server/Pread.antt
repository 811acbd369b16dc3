-- ===== src/Channel/Server/Pread.antt =====
-- cache/simplecached.c: the critical section in which `serve_cache` reads a chunk keeps the channel's
-- invariant.
use cache_server.Base.{
  ℕ, ◌+◌, ◌≡◌, refl, ap, inl, inr, Option, some, List, arith, length, drop, length-append,
  length-drop,
}
use cache_server.Base.Int.{negsuc, is_nonpos}
use cache_server.Channel.{
  writable, readable, is_readable, nobody, Shared, sys, PreadAnswer, bytes, error, serve_at,
  file_len, fill, ProxyPc, to_size,
}
use cache_server.Channel.{data_hold, data_sleep, data_signal, failed}
use cache_server.Channel.Contract.{contents, Answers}
use cache_server.Channel.Invariant.{Inv, Keeps, Keeps-ite, taken, proxy_in}
use cache_server.Channel.Facts.{
  server_released, ProxySleeps-quiet, ProxySleeps-signal, ProxySleeps-writable, status_of_readable,
  status_of_writable, Slot-writable, Slot-of_eq, Slot-fill, Told-move,
}

module _ (file : Option (List ℕ)) (a : PreadAnswer) (m : Shared) where
  serve-pread :
      (q : ProxyPc) (t : ℕ) (b : PreadAnswer)
      → Inv file (sys m (data_hold t) q)
      → Answers file (to_size m.block.datalen) (data_hold t) b
      → m.block.status ≡ writable
      → Keeps (Inv file) (elim b [
        | error ↦
            some (sys (record m { block = record (m.block) { readlen = negsuc 0 } }) (failed t) q)
        | bytes bs ↦ some (
            sys
              (record m { block = fill bs m.block; holder = nobody })
              (data_signal (t + length bs))
              q)
      ])
  unfolding fill
  serve-pread q t error i ans w =
      let even : t ≡ taken q =
        Slot-writable (contents file) m.block t (taken q) m.block.status w i.slot in
      record {
        small = i.small;
        holder = i.holder;
        early = tt;
        announced = i.announced;
        copied = i.copied;
        headed = i.headed;
        server_range = i.server_range;
        proxy_range = i.proxy_range;
        bounded = i.bounded;
        server_sleeps = tt;
        proxy_sleeps = ProxySleeps-writable q m.block.status (failed t) w;
        told =
            Told-move (is_nonpos (file_len file)) q (data_hold t) (failed t) m.block.status
              m.block.status (λ h. h) i.told;
        slot =
            Slot-of_eq (contents file) (record (m.block) { readlen = negsuc 0 }) t (taken q)
              m.block.status w even;
        sent = i.sent;
        room = i.room;
      }
  serve-pread q t (bytes bs) i ((rest, at), few, some_read) w =
      let even : t ≡ taken q =
        Slot-writable (contents file) m.block t (taken q) m.block.status w i.slot in
      record {
        small = i.small;
        holder = server_released m.holder (proxy_in q) i.holder;
        early = tt;
        announced = i.announced;
        copied = i.copied;
        headed = i.headed;
        server_range = tt;
        proxy_range = i.proxy_range;
        bounded = omega (
          arith,
          length-drop t (contents file),
          length-append bs rest,
          ap length at,
          i.server_range,
        );
        server_sleeps = tt;
        proxy_sleeps = ProxySleeps-signal q readable (data_signal (t + length bs)) tt;
        told =
            Told-move (is_nonpos (file_len file)) q (data_hold t) (data_signal (t + length bs))
              m.block.status readable (λ h. inr refl) i.told;
        slot = Slot-fill (contents file) bs rest m.block t (taken q) even at;
        sent = i.sent;
        room = omega (
          arith,
          length-append bs (drop (length bs) m.block.area),
          length-drop (length bs) m.block.area,
          i.room,
          few,
        );
      }

  pub serve-data_hold :
      (q : ProxyPc) (t : ℕ)
      → Inv file (sys m (data_hold t) q)
      → Answers file (to_size m.block.datalen) (data_hold t) a
      → Keeps (Inv file) (serve_at file a m q (data_hold t))
  unfolding serve_at
  serve-data_hold q t i ans =
      Keeps-ite (Inv file) (is_readable m.block.status) _ _
        (λ e. record {
          small = i.small;
          holder = server_released m.holder (proxy_in q) i.holder;
          early = tt;
          announced = i.announced;
          copied = i.copied;
          headed = i.headed;
          server_range = i.server_range;
          proxy_range = i.proxy_range;
          bounded = i.bounded;
          server_sleeps = inl (status_of_readable m.block.status e);
          proxy_sleeps =
              ProxySleeps-quiet q m.block.status (data_hold t) (data_sleep t) (λ h. h)
                i.proxy_sleeps;
          told =
              Told-move (is_nonpos (file_len file)) q (data_hold t) (data_sleep t) m.block.status
                m.block.status (λ h. h) i.told;
          slot = i.slot;
          sent = i.sent;
          room = i.room;
        })
        (λ e. serve-pread q t a i ans (status_of_writable m.block.status e))
