-- ===== src/Channel/Contract.antt =====
-- The system of the two threads: cache/simplecached.c and cache/handle_with_cache.c, with what they
-- rely on of `pread(2)` and of condition variables.
use cache_server.Base.{ℕ, ◌≤◌, ◌<◌, ◌≡◌, Option, none, some, List, [], ◌++◌, length, drop}
use cache_server.Channel.{
  ServerPc, data_hold, Sys, sys, PreadAnswer, bytes, error, SendAnswer, serve_cache,
  handle_with_cache, to_size, signal_readable, signal_writable,
}

-- The bytes of the file behind the descriptor; none are read for a key that is not in the cache.
abbrev pub contents : Option (List ℕ) → List ℕ
contents none = []
contents (some bs) = bs

-- `pread(fd, buf, count, offset)` on a regular file returns at most `count` of the bytes at the
-- offset, and some if it may and there are some; or it fails.
abbrev pub IsPread : (content : List ℕ) (count offset : ℕ) → PreadAnswer → Type 0
IsPread content count offset error = Unit
IsPread content count offset (bytes bs) =
    ((rest : List ℕ) × (drop offset content ≡ bs ++ rest))
    × (length bs ≤ count)
    × (0 < count → offset < length content → 0 < length bs)

-- The answer is one that the call at the worker's position may get.
abbrev pub Answers : Option (List ℕ) → ℕ → ServerPc → PreadAnswer → Type 0
Answers file count (data_hold t) a = IsPread (contents file) count t a
Answers file count _ a = Unit

-- A step of either thread, in any order.
pub data Step (file : Option (List ℕ)) (s : Sys) : Sys → Type 0 where
  serves :
      {t : Sys} (a : PreadAnswer)
      → Answers file (to_size s.mem.block.datalen) s.server a
      → serve_cache file a s ≡ some t
      → Step file s t
  handles : {t : Sys} (a : SendAnswer) → handle_with_cache a s ≡ some t → Step file s t

-- `pthread_cond_wait` may also return with no signal.
pub data Wake (s : Sys) : Sys → Type 0 where
  wakes_server : Wake s (sys s.mem (signal_writable s.server) s.proxy)
  wakes_proxy : Wake s (sys s.mem s.server (signal_readable s.proxy))

pub data Reach (file : Option (List ℕ)) (s : Sys) : Sys → Type 0 where
  here : Reach file s s
  step : {t u : Sys} → Reach file s t → Step file t u → Reach file s u
  wake : {t u : Sys} → Reach file s t → Wake t u → Reach file s u
