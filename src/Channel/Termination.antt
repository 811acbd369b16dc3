-- ===== src/Channel/Termination.antt =====
-- cache/simplecached.c and cache/handle_with_cache.c: with room for data in the segment every run
-- of the two threads is bounded, so both of their loops end.
use cache_server.Base.{
  ℕ, suc, ◌+◌, ◌*◌, ◌≤◌, ◌<◌, ◌≡◌, refl, inl, inr, Option, none, List, arith, length,
}
use cache_server.Channel.{
  Block, Sys, ProxyPc, serve_cache, handle_with_cache, to_size, signed_sub, start,
}
use cache_server.Channel.{len_lock, finished}
use cache_server.Channel.Contract.{
  contents, Step, serves, handles, Wake, wakes_server, wakes_proxy, Reach, here, step, wake,
}
use cache_server.Channel.Invariant.{Inv, Keeps-elim}
use cache_server.Channel.Server.{serve_cache-Inv}
use cache_server.Channel.Proxy.{handle_with_cache-Inv}
use cache_server.Channel.Delivery.{
  Fits, Reach-Inv, Served, delivered, wire, response, wake-server-Inv, wake-proxy-Inv,
}
use cache_server.Channel.Progress.{Sound, ProxyFinished, progress}
use cache_server.Channel.Work.{
  work, Filled, Filled-signal, Less, serve-Less, handle-Less, wake_server-work, wake_proxy-work,
}

-- A run, with the number of its steps and that of the wake-ups with no signal.
pub data Run (file : Option (List ℕ)) (s : Sys) : ℕ → ℕ → Sys → Type 0 where
  stop : Run file s 0 0 s
  more : {t u : Sys} {n w : ℕ} → Run file s n w t → Step file t u → Run file s (suc n) w u
  woken : {t u : Sys} {n w : ℕ} → Run file s n w t → Wake t u → Run file s n (suc w) u

finished_proxy : (q : ProxyPc) → ProxyFinished q → (t : ℕ) × (q ≡ finished t)
finished_proxy len_lock h = absurd h
finished_proxy (finished t) h = (t, refl)
finished_proxy q h = absurd h

-- What a run keeps: the invariant, a non-empty pending chunk, room for data, and the work left.
record Bounded (file : Option (List ℕ)) (total : ℕ) (n : ℕ) (s : Sys) : Type 0 where
  inv : Inv file s
  filled : Filled file s
  room : 0 < to_size s.mem.block.datalen
  left : n + work file s ≤ total

Step-Bounded :
    (file : Option (List ℕ)) (total n : ℕ) (s t : Sys)
    → Bounded file total n s
    → Step file s t
    → Bounded file total (suc n) t
unfolding serve_cache handle_with_cache
Step-Bounded file total n s t b (serves a ans e) =
    let (less, filled, same) =
      Keeps-elim (Less file s) _ t
        (serve-Less file a s.mem s.proxy s.server b.inv b.filled b.room ans) e in
    record {
      inv = serve_cache-Inv file a s t b.inv ans e;
      filled = filled;
      room = rw same b.room;
      left = omega (arith, less, b.left);
    }
Step-Bounded file total n s t b (handles a e) =
    let (less, filled, same) =
      Keeps-elim (Less file s) _ t (handle-Less file a s.mem s.server s.proxy b.inv b.filled) e in
    record {
      inv = handle_with_cache-Inv file a s t b.inv e;
      filled = filled;
      room = rw same b.room;
      left = omega (arith, less, b.left);
    }

-- A wake-up leaves two steps more to do at most.
Wake-Bounded :
    (file : Option (List ℕ)) (total n : ℕ) (s t : Sys)
    → Bounded file total n s
    → Wake s t
    → Bounded file (total + 2) n t
Wake-Bounded file total n s t b wakes_server = record {
  inv = wake-server-Inv file s.mem s.server s.proxy b.inv;
  filled = b.filled;
  room = b.room;
  left = omega (arith, b.left, wake_server-work file s);
}
Wake-Bounded file total n s t b wakes_proxy = record {
  inv = wake-proxy-Inv file s.mem s.server s.proxy b.inv;
  filled = Filled-signal file s.mem s.proxy b.filled;
  room = b.room;
  left = omega (arith, b.left, wake_proxy-work file s);
}

Run-Bounded :
    (file : Option (List ℕ)) (total : ℕ) (s : Sys) {n w : ℕ} {t : Sys}
    → Bounded file total 0 s
    → Run file s n w t
    → Bounded file (total + 2 * w) n t
Run-Bounded file total s b stop = record {
  inv = b.inv;
  filled = b.filled;
  room = b.room;
  left = omega (arith, b.left);
}
Run-Bounded file total s b (more {t} {u} {n} {w} r st) =
    Step-Bounded file (total + 2 * w) n t u (Run-Bounded file total s b r) st
Run-Bounded file total s b (woken {t} {u} {n} {w} r wakes) =
    let c = Wake-Bounded file (total + 2 * w) n t u (Run-Bounded file total s b r) wakes in
    record { inv = c.inv; filled = c.filled; room = c.room; left = omega (arith, c.left) }

pub Run-Reach : {file : Option (List ℕ)} {s t : Sys} {n w : ℕ} → Run file s n w t → Reach file s t
Run-Reach stop = here
Run-Reach (more r st) = step (Run-Reach r) st
Run-Reach (woken r wakes) = wake (Run-Reach r) wakes

module _ {file : Option (List ℕ)} {header_size segsize : ℕ} {old : Block}
    (f : Fits file header_size segsize old) (room : 0 < to_size (signed_sub segsize header_size))
    {n w : ℕ} {s : Sys} (r : Run file (start header_size segsize old) n w s) where
  start-Bounded : Bounded file (12 * length (contents file) + 18) 0 (start header_size segsize old)
  unfolding start work
  start-Bounded = record {
    inv = Reach-Inv f here;
    filled = λ e. cc;
    room = room;
    left = omega arith;
  }

  -- Both loops end: if the sizes fit and the data area has room for at least one byte, a run for a file of `len` bytes with `w` wake-ups that no signal causes has at most
  -- `12 * len + 18 + 2 * w` steps besides these wake-ups, however they are interleaved and answered.
  pub bounded_run : n ≤ 12 * length (contents file) + 18 + 2 * w
  bounded_run = omega (arith, (Run-Bounded file _ _ start-Bounded r).left)

  -- If the sizes fit and there is room for a byte: a run, with wake-ups that no signal causes or without, that has come to a state where no read and no
  -- send has failed, that of the header included, and from which no step leads to a state with no failed read or chunk, has put the whole
  -- response on the connection.
  pub completed_run :
      Sound s
      → s.mem.header_cut ≡ none
      → ¬ ((t : Sys) × Step file s t × Sound t)
      → (t : ℕ) × (s.proxy ≡ finished t)
        × Served file t s.mem.header s.mem.sent
        × (wire s.mem ≡ response file)
  completed_run sound whole stuck = elim (progress f (Run-Reach r) sound) [
    | inl go ↦ absurd (stuck go)
    | inr (p, q) ↦
        let (t, e) = finished_proxy s.proxy q in
        let (served, all) = delivered f (Run-Reach r) t e whole in (t, e, served, all)
  ]
