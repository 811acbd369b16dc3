-- ===== src/Channel.antt =====
-- The data channel: cache/shm_channel.h and shm_channel.c (the shared block), `serve_cache` of
-- cache/simplecached.c (the cache daemon's worker) and `handle_with_cache` of
-- cache/handle_with_cache.c (the proxy's handler), for one request.
-- The two threads run in any order. A state has the shared block, who holds its mutex, the position
-- of each thread with its live local variables, and what the handler has sent to its client.
-- Between `pthread_mutex_lock` and the matching unlock or wait a thread runs alone, so that stretch
-- is one step; taking the lock, a signal, and a loop test are steps of their own.
pub mod Contract
pub mod Invariant
mod Facts
pub mod Server
pub mod Proxy
pub mod Delivery
pub mod Client
pub mod Progress
mod Work
pub mod Termination
pub mod Livelock
mod Examples
use cache_server.Base.{
  ℕ, zero, suc, ◌+◌, ◌-◌, ◌%◌, ◌^◌, Bool, true, false, Option, none, some, List, [], ◌∷◌, ◌++◌, leb,
  if◌then◌else◌, length, take, drop,
}
use cache_server.Base.Int.{ℤ, pos, negsuc, ltb_ℤ, is_neg, is_nonpos}

-- `WRITABLE` and `READABLE`
pub data Status : Type 0 where
  writable readable : Status

-- `cache` of shm_channel.h, less its mutex and condition variables, which are in `Shared` and in the
-- positions. `data` is the flexible array member.
pub record Block : Type 0 where
  pub datalen : ℤ
  pub filelen : ℤ
  pub readlen : ℤ
  pub status : Status
  pub area : List ℕ

-- `segsize - (ssize_t)sizeof(cache)`
pub signed_sub : ℕ → ℕ → ℤ
signed_sub a b = if leb b a then pos (a - b) else negsuc (b - a - 1)

-- `header_size` is `sizeof(cache)`; `old` is what the segment held.
pub init_cache_block : (header_size segsize : ℕ) → Block → Block
unfolding signed_sub
init_cache_block header_size segsize old = record old {
  status = writable;
  datalen = signed_sub segsize header_size;
  filelen = pos 0;
  readlen = pos 0;
}

-- `(size_t)` of a signed 64-bit value
abbrev pub to_size : ℤ → ℕ
to_size (pos n) = n % 2 ^ 64
to_size (negsuc n) = 2 ^ 64 - suc n

pub data Holder : Type 0 where
  nobody by_server by_proxy : Holder

abbrev pub is_free : Holder → Bool
is_free nobody = true
is_free _ = false

abbrev pub is_readable : Status → Bool
is_readable readable = true
is_readable writable = false

-- What `gfs_sendheader` is called with.
pub data Header : Type 0 where
  file_not_found : Header
  file_ok : ℕ → Header

-- Positions of `serve_cache`, with `transfered`: before each lock, inside the lock, asleep in
-- `pthread_cond_wait`, and before the signal; for the file length and then for each chunk.
pub data ServerPc : Type 0 where
  len_lock len_hold len_sleep len_signal : ServerPc
  data_test data_lock data_hold data_sleep data_signal : ℕ → ServerPc
  finished failed : ℕ → ServerPc

-- Positions of `handle_with_cache`, with its `filelen` and `transferred`.
pub data ProxyPc : Type 0 where
  len_lock len_hold len_sleep : ProxyPc
  send_header : ℤ → ProxyPc
  data_test data_lock data_hold data_sleep data_signal : ℤ → ℕ → ProxyPc
  finished failed : ℕ → ProxyPc

-- `header` is what `gfs_sendheader` was called with; if its send failed, `header_cut` is how many bytes
-- of the header went out.
pub record Shared : Type 0 where
  pub block : Block
  pub holder : Holder
  pub header : Option Header
  pub header_cut : Option ℕ
  pub sent : List ℕ

pub record Sys : Type 0 where
  pub mem : Shared
  pub server : ServerPc
  pub proxy : ProxyPc

abbrev pub sys : Shared → ServerPc → ProxyPc → Sys
sys m p q = record { mem = m; server = p; proxy = q }

-- What `pread` returns: bytes, or -1.
pub data PreadAnswer : Type 0 where
  bytes : List ℕ → PreadAnswer
  error : PreadAnswer

-- What `gfs_send` does: it sends all it was given, or returns -1 after some of the bytes.
pub data SendAnswer : Type 0 where
  wrote_all : SendAnswer
  broke : ℕ → SendAnswer

abbrev pub cut_by : SendAnswer → Option ℕ
cut_by wrote_all = none
cut_by (broke k) = some k

-- A signal wakes a thread that waits on the condition; it then takes the lock again.
pub signal_readable : ProxyPc → ProxyPc
signal_readable len_sleep = len_lock
signal_readable (data_sleep fl t) = data_lock fl t
signal_readable q = q

pub signal_writable : ServerPc → ServerPc
signal_writable len_sleep = len_lock
signal_writable (data_sleep t) = data_lock t
signal_writable p = p

-- The file that `simplecache_get` finds, if any, gives the worker's `filelen`.
pub file_len : Option (List ℕ) → ℤ
file_len none = negsuc 0
file_len (some bs) = pos (length bs)

-- `pread` overwrites the head of the data area.
pub fill : List ℕ → Block → Block
fill bs b = record b {
  area = bs ++ drop (length bs) b.area;
  readlen = pos (length bs);
  status = readable;
}

module _ (file : Option (List ℕ)) where
  -- One step of `serve_cache`; `none` where it can take no step.
  pub serve_at : PreadAnswer → Shared → ProxyPc → ServerPc → Option Sys
  unfolding file_len fill signal_readable
  serve_at a m q len_lock =
      if is_free m.holder then some (sys (record m { holder = by_server }) len_hold q) else none
  serve_at a m q len_hold =
      if is_readable m.block.status
      then some (sys (record m { holder = nobody }) len_sleep q)
      else if is_nonpos (file_len file)
      then some (
          sys
            (record m {
              block = record (m.block) { filelen = file_len file; status = readable };
              holder = nobody;
            })
            len_signal q)
      else some (
          sys (record m { block = record (m.block) { filelen = file_len file }; holder = nobody })
            (data_test 0) q)
  serve_at a m q len_sleep = none
  serve_at a m q len_signal = some (sys m (data_test 0) (signal_readable q))
  serve_at a m q (data_test t) =
      some (sys m (if ltb_ℤ t (file_len file) then data_lock t else finished t) q)
  serve_at a m q (data_lock t) =
      if is_free m.holder
      then some (sys (record m { holder = by_server }) (data_hold t) q)
      else none
  serve_at a m q (data_hold t) =
      if is_readable m.block.status
      then some (sys (record m { holder = nobody }) (data_sleep t) q)
      else elim a [
        | error ↦
            some (sys (record m { block = record (m.block) { readlen = negsuc 0 } }) (failed t) q)
        | bytes bs ↦ some (
            sys (record m { block = fill bs m.block; holder = nobody })
              (data_signal (t + length bs)) q)
      ]
  serve_at a m q (data_sleep t) = none
  serve_at a m q (data_signal t) = some (sys m (data_test t) (signal_readable q))
  serve_at a m q (finished t) = none
  serve_at a m q (failed t) = none

  pub serve_cache : PreadAnswer → Sys → Option Sys
  serve_cache a s = serve_at a s.mem s.proxy s.server

-- The bytes that `gfs_send` is given: `(size_t)cp->readlen` bytes from the head of the area.
pub chunk : Block → List ℕ
chunk b = take (to_size b.readlen) b.area

abbrev pub header_for : ℤ → Header
header_for fl = if is_neg fl then file_not_found else file_ok (to_size fl)

-- One step of `handle_with_cache`; the result of `gfs_sendheader` is ignored.
pub handle_at : SendAnswer → Shared → ServerPc → ProxyPc → Option Sys
unfolding chunk signal_writable
handle_at a m p len_lock =
    if is_free m.holder then some (sys (record m { holder = by_proxy }) p len_hold) else none
handle_at a m p len_hold =
    if is_readable m.block.status
    then some (sys (record m { holder = nobody }) p (send_header m.block.filelen))
    else some (sys (record m { holder = nobody }) p len_sleep)
handle_at a m p len_sleep = none
handle_at a m p (send_header fl) =
    some
      (sys (record m { header = some (header_for fl); header_cut = cut_by a }) p (data_test fl 0))
handle_at a m p (data_test fl t) =
    some (sys m p (if ltb_ℤ t fl then data_lock fl t else finished t))
handle_at a m p (data_lock fl t) =
    if is_free m.holder
    then some (sys (record m { holder = by_proxy }) p (data_hold fl t))
    else none
handle_at a m p (data_hold fl t) =
    if is_readable m.block.status
    then elim a [
      | wrote_all ↦ some (
          sys
            (record m {
              block = record (m.block) { status = writable };
              holder = nobody;
              sent = m.sent ++ chunk m.block;
            })
            p (data_signal fl (t + to_size m.block.readlen)))
      | broke k ↦ some (sys (record m { sent = m.sent ++ take k (chunk m.block) }) p (failed t))
    ]
    else some (sys (record m { holder = nobody }) p (data_sleep fl t))
handle_at a m p (data_sleep fl t) = none
handle_at a m p (data_signal fl t) = some (sys m (signal_writable p) (data_test fl t))
handle_at a m p (finished t) = none
handle_at a m p (failed t) = none

pub handle_with_cache : SendAnswer → Sys → Option Sys
handle_with_cache a s = handle_at a s.mem s.server s.proxy

-- The handler has initialised the block and sent the request; the worker has received it.
pub start : (header_size segsize : ℕ) → Block → Sys
unfolding init_cache_block
start header_size segsize old =
    sys
      (record {
        block = init_cache_block header_size segsize old;
        holder = nobody;
        header = none;
        header_cut = none;
        sent = [];
      })
      len_lock len_lock
