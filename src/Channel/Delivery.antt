-- ===== src/Channel/Delivery.antt =====
-- What the data channel delivers: cache/simplecached.c and cache/handle_with_cache.c together.
use mathlib.Core.Path.{subst}
use native.Mathlib.Nat.{mod-eq_of_lt}
use cache_server.Base.{
  ℕ, ◌<◌, ◌^◌, ◌≡◌, ◌≢◌, refl, sym, ap, ◌∙◌, Bool, true, Option, none, some, List, [], ◌++◌, arith,
  length, append-nil, take, drop, drop_all,
}
use cache_server.Text.{Bytes}
use cache_server.Getfile.{gf_ok, gf_file_not_found, format_header}
use cache_server.Channel.{
  Status, Block, Holder, nobody, by_server, by_proxy, Header, file_not_found, file_ok, Shared, Sys,
  sys, ServerPc, ProxyPc, to_size, signed_sub, start, file_len, signal_readable, signal_writable,
}
use cache_server.Channel.{len_lock, len_sleep, finished, failed}
use cache_server.Channel.Contract.{
  contents, serves, handles, wakes_server, wakes_proxy, Reach, here, step, wake,
}
use cache_server.Channel.Invariant.{
  Inv, server_in, proxy_in, held_by, taken, Sent, Slot, ProxyRange,
}
use cache_server.Channel.Facts.{Slot-le}
use cache_server.Channel.Server.{serve_cache-Inv}
use cache_server.Channel.Proxy.{handle_with_cache-Inv}

-- The sizes fit: the segment's data area has the size that `init_cache_block` computes, and the file
-- has less than 2^63 bytes.
pub record Fits (file : Option (List ℕ)) (header_size segsize : ℕ) (old : Block) : Type 0 where
  pub area : length old.area ≡ to_size (signed_sub segsize header_size)
  pub small : length (contents file) < 2 ^ 63

module _ (file : Option (List ℕ)) where
  start-Inv :
      (header_size segsize : ℕ) (old : Block)
      → Fits file header_size segsize old
      → Inv file (start header_size segsize old)
  unfolding start
  start-Inv header_size segsize old f = record {
    small = f.small;
    holder = refl;
    early = (refl, refl);
    announced = tt;
    copied = tt;
    headed = refl;
    server_range = tt;
    proxy_range = tt;
    bounded = omega arith;
    server_sleeps = tt;
    proxy_sleeps = tt;
    told = tt;
    slot = refl;
    sent = refl;
    room = f.area;
  }

  pub wake-server-Inv :
      (m : Shared) (p : ServerPc) (q : ProxyPc)
      → Inv file (sys m p q)
      → Inv file (sys m (signal_writable p) q)
  unfolding signal_writable
  wake-server-Inv m len_sleep q i = ground arith
  wake-server-Inv m p q i = ground arith

  pub wake-proxy-Inv :
      (m : Shared) (p : ServerPc) (q : ProxyPc)
      → Inv file (sys m p q)
      → Inv file (sys m p (signal_readable q))
  unfolding signal_readable
  wake-proxy-Inv m p len_sleep i = ground arith
  wake-proxy-Inv m p q i = ground arith

-- The invariant holds in every state that the two threads reach.
pub Reach-Inv :
    {file : Option (List ℕ)} {header_size segsize : ℕ} {old : Block} {s : Sys}
    → Fits file header_size segsize old
    → Reach file (start header_size segsize old) s
    → Inv file s
Reach-Inv {file} {header_size} {segsize} {old} f here = start-Inv file header_size segsize old f
Reach-Inv {file} f (step {t} {u} r (serves a ans e)) =
    serve_cache-Inv file a t u (Reach-Inv f r) ans e
Reach-Inv {file} f (step {t} {u} r (handles a e)) =
    handle_with_cache-Inv file a t u (Reach-Inv f r) e
Reach-Inv {file} f (wake {t} r wakes_server) =
    wake-server-Inv file t.mem t.server t.proxy (Reach-Inv f r)
Reach-Inv {file} f (wake {t} r wakes_proxy) =
    wake-proxy-Inv file t.mem t.server t.proxy (Reach-Inv f r)

-- What the handler has to send: the header, the bytes, and the length that it returns.
abbrev pub Served : Option (List ℕ) → ℕ → Option Header → List ℕ → Type 0
Served none n header sent = (header ≡ some file_not_found) × (sent ≡ []) × (n ≡ 0)
Served (some bs) n header sent =
    (header ≡ some (file_ok (length bs))) × (sent ≡ bs) × (n ≡ length bs)

-- The bytes on the connection: what has gone out of the header, and the chunks.
abbrev header_bytes : Header → Bytes
header_bytes file_not_found = format_header gf_file_not_found 0
header_bytes (file_ok n) = format_header gf_ok n

abbrev header_part : Option Header → Option ℕ → Bytes
header_part none cut = []
header_part (some h) none = header_bytes h
header_part (some h) (some k) = take k (header_bytes h)

abbrev pub wire : Shared → Bytes
wire m = header_part m.header m.header_cut ++ m.sent

-- The response for a file, or for a key that is not in the cache.
abbrev pub response : Option (List ℕ) → Bytes
response none = format_header gf_file_not_found 0
response (some bs) = format_header gf_ok (length bs) ++ bs

Served-wire :
    (file : Option (List ℕ)) (n : ℕ) (m : Shared)
    → Served file n m.header m.sent
    → m.header_cut ≡ none
    → wire m ≡ response file
Served-wire none n m (header, sent, _) whole = rw (header, whole, sent) (append-nil (response none))
Served-wire (some bs) n m (header, sent, _) whole = rw (header, whole, sent) refl

all_sent : (out bs : List ℕ) (t : ℕ) → t ≡ length bs → out ++ drop t bs ≡ bs → out ≡ bs
all_sent out bs t e h =
    sym (append-nil out) ∙ ap (λ r. out ++ r) (sym (ap (λ k. drop k bs) e ∙ drop_all bs)) ∙ h

Inv-Served :
    (file : Option (List ℕ)) (m : Shared) (p : ServerPc) (t : ℕ)
    → Inv file (sys m p (finished t))
    → Served file t m.header m.sent
unfolding file_len
Inv-Served none m p t i = (i.headed, all_sent m.sent [] t i.proxy_range i.sent, i.proxy_range)
Inv-Served (some bs) m p t i = (
  i.headed ∙ ap (λ k. some (file_ok k)) (mod-eq_of_lt (omega (arith, i.small))),
  all_sent m.sent bs t i.proxy_range i.sent,
  i.proxy_range,
)

Sent-prefix :
    (bs : List ℕ) (q : ProxyPc) (out : List ℕ)
    → Sent bs q out
    → (rest : List ℕ) × (out ++ rest ≡ bs)
Sent-prefix bs (failed t) out h = h
Sent-prefix bs len_lock out h = (bs, h)
Sent-prefix bs q out h = (drop (taken q) bs, h)

one_holder : (h : Holder) (a b : Bool) → held_by h ≡ (a, b) → a ≡ true → b ≡ true → ⊥
one_holder nobody a b e p q = ground arith
one_holder by_server a b e p q = ground arith
one_holder by_proxy a b e p q = ground arith

by_server_only : (h : Holder) (b : Bool) → held_by h ≡ (true, b) → h ≡ by_server
by_server_only nobody b e = ground arith
by_server_only by_server b e = refl
by_server_only by_proxy b e = ground arith

not_complete :
    (bs : List ℕ) (b : Block) (t : ℕ) (st : Status) (q : ProxyPc) (n : ℕ)
    → t < length bs
    → Slot bs b t (taken q) st
    → ProxyRange (length bs) q
    → q ≢ finished n
not_complete bs b t st (finished k) n lt slot range e =
    omega (arith, Slot-le bs b t k st slot, range, lt)
not_complete bs b t st len_lock n lt slot range e = cc
not_complete bs b t st q n lt slot range e = cc

stranded :
    (file : Option (List ℕ)) (m : Shared) (t : ℕ) (q : ProxyPc)
    → Inv file (sys m (failed t) q)
    → (m.holder ≡ by_server) × ((n : ℕ) → q ≢ finished n)
stranded file m t q i = (
  by_server_only m.holder (proxy_in q) i.holder,
  λ n.
      not_complete (contents file) m.block t m.block.status q n i.server_range i.slot i.proxy_range,
)

module _ {file : Option (List ℕ)} {header_size segsize : ℕ} {old : Block} {s : Sys}
    (f : Fits file header_size segsize old) (r : Reach file (start header_size segsize old) s) where
  -- If the sizes fit: however the two threads are interleaved, woken and answered, when the handler
  -- finishes, and the send of its header has not failed, the bytes on its connection are the `OK` header with the file's
  -- length and exactly the file, or the `FILE_NOT_FOUND` header alone; and it returns the
  -- number of the file's bytes.
  pub delivered :
      (t : ℕ)
      → s.proxy ≡ finished t
      → s.mem.header_cut ≡ none
      → Served file t s.mem.header s.mem.sent × (wire s.mem ≡ response file)
  delivered t e whole =
      let served =
        Inv-Served file s.mem s.server t
          (subst (λ q. Inv file (sys s.mem s.server q)) e (Reach-Inv f r)) in
      (served, Served-wire file t s.mem served whole)

  -- If the sizes fit: at every moment, failures included, the client has a prefix of the file; the two threads are
  -- never in their critical sections together; and `pread` is never asked for more bytes than the
  -- data area has.
  pub exclusive_and_safe :
      ((rest : List ℕ) × (s.mem.sent ++ rest ≡ contents file))
      × (¬ ((server_in s.server ≡ true) × (proxy_in s.proxy ≡ true)))
      × (to_size s.mem.block.datalen ≡ length s.mem.block.area)
  exclusive_and_safe = (
    Sent-prefix (contents file) s.proxy s.mem.sent (Reach-Inv f r).sent,
    λ (a, b).
        one_holder s.mem.holder (server_in s.server) (proxy_in s.proxy) (Reach-Inv f r).holder a b,
    sym (Reach-Inv f r).room,
  )

  -- A failed read strands the handler, if the sizes fit: in every state in which the worker has returned
  -- by its error branch the mutex is still held by it, and the handler has not finished.
  pub failed_read_strands :
      (t : ℕ) → s.server ≡ failed t → (s.mem.holder ≡ by_server) × ((n : ℕ) → s.proxy ≢ finished n)
  failed_read_strands t e =
      stranded file s.mem t s.proxy (subst (λ p. Inv file (sys s.mem p s.proxy)) e (Reach-Inv f r))
