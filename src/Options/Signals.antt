-- ===== src/Options/Signals.antt =====
-- cache/webproxy.c, curl/webproxy.c, gflib/gfserver_main.c and cache/simplecached.c: `_sig_handler`, with
-- what it calls of gflib/gfserver.c, cache/handle_with_cache.c and cache/simplecache.c.
use cache_server.Base.{
  ℕ, ◌<◌, ◌≡◌, refl, ap, sym, ◌∙◌, Bool, true, false, ◌||◌, ◌&&◌, not, List, [], ◌==◌,
  if◌then◌else◌, arith, length, ◌⊎◌, inl, inr,
}
use cache_server.Base.Int.{ℤ}
use cache_server.Steque.{Steque, ok, fault, exits, out_of_fuel}
use cache_server.Steque.Chain.{Cells, items, IsSteque, length-items}
use cache_server.Steque.Destroy.{inversion}
use cache_server.Table.{Item, simplecache_destroy}
use cache_server.Pool.{Cleaned, remove_queue, clean_cache_handlers}
use cache_server.Pool.Segments.{clean-Removes}
use cache_server.Server.{Task}
use cache_server.Server.Concrete.{drain, Represents, contexts, drain-contexts}

abbrev pub sigint : ℕ
sigint = 2

abbrev pub sigterm : ℕ
sigterm = 15

-- `signo == SIGINT || signo == SIGTERM`
abbrev pub ends_process : (signo : ℕ) → Bool
ends_process signo = (signo == sigint) || (signo == sigterm)

-- What has been closed and removed when a process exits: the connections, message queues, segments and the
-- descriptors of the table.
pub record Killed : Type 0 where
  pub closed : List ℕ
  pub queues : List ℤ
  pub segments : List ℕ
  pub files : List ℕ
  pub code : ℕ

-- How a signal ends: the handler returns; it waits for a mutex that the thread it has interrupted
-- holds; it accesses memory outside an object, or does not end; or the process exits.
pub data Ended : Type 0 where
  returns deadlock crashes : Ended
  killed : Killed → Ended

-- The statics of a proxy that gets a signal, and which of the two mutexes the interrupted thread holds:
-- the one of the server, or the one of the pool. The queue and the pool are as they are when the handler
-- has locked them.
pub record Interrupted : Type 0 where
  pub tasks : Steque Task
  pub pool : Steque ℕ
  pub msqid : ℤ
  pub holds_server : Bool
  pub holds_pool : Bool

-- `gfserver_stop`, and what comes after it.
unfoldable pub stop_then : (fuel : ℕ) → Interrupted → (List ℕ → Ended) → Ended
stop_then fuel p next = if p.holds_server then deadlock else elim (drain fuel p.tasks) [
  | ok closed _ ↦ next closed
  | fault ↦ crashes
  | exits _ ↦ crashes
  | out_of_fuel ↦ crashes
]

-- `clean_cache_handlers`, which locks the mutex of the pool if there is a segment to remove.
unfoldable pub clean_then : (fuel : ℕ) → Interrupted → (Cleaned → Ended) → Ended
clean_then fuel p next =
    if p.holds_pool && not (p.pool.count == 0)
    then deadlock
    else elim (clean_cache_handlers fuel p.msqid p.pool) [
      | ok cleaned _ ↦ next cleaned
      | fault ↦ crashes
      | exits _ ↦ crashes
      | out_of_fuel ↦ crashes
    ]

-- `_sig_handler` of cache/webproxy.c.
unfoldable pub webproxy_sig_handler : (fuel signo : ℕ) → Interrupted → Ended
unfolding stop_then clean_then
webproxy_sig_handler fuel signo p =
    if ends_process signo
    then stop_then fuel p (λ closed. clean_then fuel p (λ cleaned. killed (record {
      closed = closed;
      queues = cleaned.queues;
      segments = cleaned.segments;
      files = [];
      code = signo;
    })))
    else returns

-- `_sig_handler` of curl/webproxy.c.
unfoldable pub curl_sig_handler : (fuel signo : ℕ) → Interrupted → Ended
unfolding stop_then
curl_sig_handler fuel signo p =
    if ends_process signo
    then stop_then fuel p (λ closed.
      killed (record { closed = closed; queues = []; segments = []; files = []; code = signo }))
    else returns

-- `_sig_handler` of gflib/gfserver_main.c.
unfoldable pub gfserver_sig_handler : (signo : ℕ) → Ended
gfserver_sig_handler signo =
    if ends_process signo
    then killed (record { closed = []; queues = []; segments = []; files = []; code = signo })
    else returns

-- `_sig_handler` of cache/simplecached.c, with `msqid` and the table.
unfoldable pub simplecached_sig_handler : (signo : ℕ) → ℤ → List Item → Ended
simplecached_sig_handler signo msqid table =
    if ends_process signo
    then killed (record {
      closed = [];
      queues = (remove_queue msqid).0;
      segments = [];
      files = simplecache_destroy table;
      code = signo;
    })
    else returns

-- A steque that the segments' ids are in, in order.
abbrev pub Keeps : Steque ℕ → List ℕ → Type 0
Keeps st ids = (cells : Cells ℕ) × IsSteque st cells × (items cells ≡ ids)

module _ (fuel : ℕ) (p : Interrupted) where
  stop_then-contexts :
      (queue : List Task) (next : List ℕ → Ended)
      → Represents p.tasks queue
      → length queue < fuel
      → stop_then fuel p next ≡ (if p.holds_server then deadlock else next (contexts queue))
  unfolding stop_then
  stop_then-contexts queue next (cells, is, same) lt =
      let size : length cells ≡ length queue = sym (length-items cells) ∙ ap length same in
      let (closed, t, e, (all, _)) =
        inversion (drain fuel p.tasks) _
          (drain-contexts fuel p.tasks cells is (omega (arith, size, lt))) in
      rw e (ap (λ c. if p.holds_server then deadlock else next c) (all ∙ ap contexts same))

  clean_then-Cleaned :
      (ids : List ℕ) (next : Cleaned → Ended)
      → Keeps p.pool ids
      → length ids < fuel
      → p.holds_pool ≡ false
      → (c : Cleaned) × (clean_then fuel p next ≡ next c)
        × (c.segments ≡ ids)
        × (c.queues ≡ (remove_queue p.msqid).0)
  unfolding clean_then
  clean_then-Cleaned ids next (cells, is, same) lt free =
      let size : length cells ≡ length ids = sym (length-items cells) ∙ ap length same in
      let (c, t, e, ((all, queues, _), _)) =
        inversion (clean_cache_handlers fuel p.msqid p.pool) _
          (clean-Removes fuel p.msqid p.pool cells is (omega (arith, size, lt))) in
      (c, rw (free, e) refl, all ∙ same, queues)

  ends : (signo : ℕ) → (signo ≡ sigint) ⊎ (signo ≡ sigterm) → ends_process signo ≡ true
  ends signo (inl e) = rw e refl
  ends signo (inr e) = rw e refl

  -- On SIGINT and SIGTERM, with steques that represent the queued requests and the free segments, fuel for more
  -- rounds than either has items, and an interrupted thread that does not hold the pool's mutex: if it does
  -- not hold the server's mutex either, both proxies close the queued connections in order and exit with the
  -- signal's number, and cache/webproxy.c also removes each free segment, and its message queue
  -- if there is one; if it holds the server's mutex, both proxies wait for ever.
  pub killed_by_signal :
      (signo : ℕ) (queue : List Task) (ids : List ℕ)
      → (signo ≡ sigint) ⊎ (signo ≡ sigterm)
      → Represents p.tasks queue
      → Keeps p.pool ids
      → length queue < fuel
      → length ids < fuel
      → p.holds_pool ≡ false
      → (webproxy_sig_handler fuel signo p ≡ (
          if p.holds_server
          then deadlock
          else killed (record {
            closed = contexts queue;
            queues = (remove_queue p.msqid).0;
            segments = ids;
            files = [];
            code = signo;
          })))
        × (curl_sig_handler fuel signo p ≡ (
            if p.holds_server
            then deadlock
            else killed (record {
              closed = contexts queue;
              queues = [];
              segments = [];
              files = [];
              code = signo;
            })))
  unfolding webproxy_sig_handler curl_sig_handler
  killed_by_signal signo queue ids sig tasks pool fits fits' free =
      let (c, e, segments, queues) =
        clean_then-Cleaned ids
          (λ cleaned. killed (record {
            closed = contexts queue;
            queues = cleaned.queues;
            segments = cleaned.segments;
            files = [];
            code = signo;
          }))
          pool fits' free in
      rw (webproxy_sig_handler, curl_sig_handler, ends signo sig)
        (
          stop_then-contexts queue _ tasks fits
              ∙ ap (λ r. if p.holds_server then deadlock else r)
                  (e ∙ (λ i. killed (record {
                    closed = contexts queue;
                    queues = queues i;
                    segments = segments i;
                    files = [];
                    code = signo;
                  }))),
          stop_then-contexts queue _ tasks fits,
        )
