-- ===== src/Options/Accepts.antt =====
-- cache/webproxy.c, curl/webproxy.c: exactly which command lines start a proxy, and with which values.
use cache_server.Base.{
  ℕ, ◌^◌, ◌≤◌, ◌≡◌, ◌↔◌, refl, inl, inr, Option-cases, Bool, true, ◌||◌, Option, some, List, ◌==◌,
  sym, ap, ◌∙◌, if◌then◌else◌, arith,
}
use cache_server.Text.{Bytes, codes}
use cache_server.Options.{run, then_start, to_int, to_unsigned, atoi, Answer}
use cache_server.Options.Settings.{cache_handler}
use cache_server.Options.Proxies.{
  Webproxy, CacheProxy, Ipc, Made, init_handlers, webproxy_defaults, webproxy_option,
  webproxy_guards, webproxy_start, webproxy_main,
}
use cache_server.Options.Setup.{serving, set_up-serving}
use cache_server.Options.Loop.{
  last_arg, value_or, all_known, apply_all, apply_all-last_arg, Applies, loop_iff, guards_then,
  run_inj, then_start-run,
}

abbrev pub short_arg : Bytes → ℕ
short_arg arg = to_unsigned (2 ^ 16) (atoi arg)

abbrev pub uint_arg : Bytes → ℕ
uint_arg arg = to_unsigned (2 ^ 32) (atoi arg)

abbrev pub size_arg : Bytes → ℕ
size_arg arg = to_unsigned (2 ^ 64) (atoi arg)

abbrev pub is_webproxy_option : ℕ → Bool
is_webproxy_option k =
    (k == b'n') || (k == b'p') || (k == b's') || (k == b't') || (k == b'z') || (k == b'i')

abbrev apply_webproxy : ℕ → Bytes → Webproxy → Webproxy
apply_webproxy k arg o = record {
  port = if k == b'p' then short_arg arg else o.port;
  nworkerthreads = if k == b't' then short_arg arg else o.nworkerthreads;
  nsegments = if k == b'n' then uint_arg arg else o.nsegments;
  segsize = if k == b'z' then size_arg arg else o.segsize;
  server = if k == b's' then some arg else o.server;
}

webproxy_option-Applies : Applies apply_webproxy is_webproxy_option webproxy_option
unfolding webproxy_option
webproxy_option-Applies k arg o = (λ e. ground (arith, e), λ b e. ground (arith, e))

-- The values of the last options of each kind, or the defaults.
unfoldable pub webproxy_last : List Answer → Webproxy
webproxy_last options = record {
  port = value_or short_arg 8803 (last_arg b'p' options);
  nworkerthreads = value_or short_arg 2 (last_arg b't' options);
  nsegments = value_or uint_arg 8 (last_arg b'n' options);
  segsize = value_or size_arg 8803 (last_arg b'z' options);
  server = value_or some webproxy_defaults.server (last_arg b's' options);
}

apply_all-webproxy_last :
    (options : List Answer)
    → apply_all apply_webproxy options webproxy_defaults ≡ webproxy_last options
unfolding webproxy_last
apply_all-webproxy_last options =
    let p =
      apply_all-last_arg apply_webproxy ℕ (λ o. o.port) b'p' short_arg (λ k arg o. refl) options
        webproxy_defaults in
    let t =
      apply_all-last_arg apply_webproxy ℕ (λ o. o.nworkerthreads) b't' short_arg (λ k arg o. refl)
        options webproxy_defaults in
    let n =
      apply_all-last_arg apply_webproxy ℕ (λ o. o.nsegments) b'n' uint_arg (λ k arg o. refl) options
        webproxy_defaults in
    let z =
      apply_all-last_arg apply_webproxy ℕ (λ o. o.segsize) b'z' size_arg (λ k arg o. refl) options
        webproxy_defaults in
    let s =
      apply_all-last_arg apply_webproxy (Option Bytes) (λ o. o.server) b's' some (λ k arg o. refl)
        options webproxy_defaults in
    λ i. record { port = p i; nworkerthreads = t i; nsegments = n i; segsize = z i; server = s i }

-- The values that the tests after the loop let pass.
abbrev pub Allowed : (sizeof_cache : ℕ) → Webproxy → Type 0
Allowed sizeof_cache o =
    (1024 ≤ o.port)
    × (1 ≤ o.nworkerthreads)
    × (o.nworkerthreads ≤ 8803)
    × (1 ≤ o.nsegments)
    × (128 ≤ o.segsize)
    × (sizeof_cache ≤ o.segsize)

guards-Allowed :
    (sizeof_cache : ℕ) (o b : Webproxy) (s : Bytes)
    → o.server ≡ some s
    → webproxy_guards sizeof_cache o ≡ run b
    → Allowed sizeof_cache o × (b ≡ o)
unfolding webproxy_guards
guards-Allowed sizeof_cache o b s some_server e = ground (arith, some_server, e)

Allowed-guards :
    (sizeof_cache : ℕ) (o : Webproxy) (s : Bytes)
    → o.server ≡ some s
    → Allowed sizeof_cache o
    → webproxy_guards sizeof_cache o ≡ run o
unfolding webproxy_guards
Allowed-guards sizeof_cache o s some_server allowed = ground (arith, some_server, allowed)

some_last : (options : List Answer) → (s : Bytes) × ((webproxy_last options).server ≡ some s)
unfolding webproxy_last
some_last options = elim (Option-cases (last_arg b's' options)) [
  | inl e ↦ (codes "s3.amazonaws.com/content.udacity-data.com", rw e refl)
  | inr e ↦ (e.0, rw e.1 refl)
]

unfoldable pub cache_proxy : Webproxy → CacheProxy
cache_proxy o = record {
  seg_size = to_int o.segsize;
  nsegments = to_int o.nsegments;
  gfs = serving o.nworkerthreads o.port 42 cache_handler o.server;
}

start-cache_proxy :
    (ipc : Ipc) (o : Webproxy)
    → webproxy_start ipc o
      ≡ then_start (init_handlers ipc (to_int o.nsegments)) (λ made. run (cache_proxy o, made))
unfolding webproxy_start cache_proxy
start-cache_proxy ipc o = rw (set_up-serving o.nworkerthreads o.port 42 cache_handler o.server) refl

start_iff :
    (ipc : Ipc) (o : Webproxy) (w : CacheProxy) (made : Made)
    → webproxy_start ipc o ≡ run (w, made)
      ↔ ((init_handlers ipc (to_int o.nsegments) ≡ run made) × (w ≡ cache_proxy o))
start_iff ipc o w made = (
  λ e.
      let (made', ok, rest) =
        then_start-run (init_handlers ipc (to_int o.nsegments)) (λ made. run (cache_proxy o, made))
          (w, made) (sym (start-cache_proxy ipc o) ∙ e) in
      let same : (cache_proxy o, made') ≡ (w, made) = run_inj rest in
      (
        ok ∙ ap (λ (x : CacheProxy × Made). run (x.1)) same,
        sym (ap (λ (x : CacheProxy × Made). x.0) same),
      ),
  λ h. start-cache_proxy ipc o ∙ rw (h.0, h.1) refl,
)

module _ (sizeof_cache : ℕ) (ipc : Ipc) (options : List Answer) (w : CacheProxy) (made : Made) where
  -- The proxy with shared memory starts, if its signals can be caught, exactly if every option is
  -- known, the port is at least 1024, there are 1 to 8803 threads and at least one segment, as an
  -- `unsigned int`, and a segment has at least 128 bytes and `sizeof(cache)` bytes, and `init_cache_handlers` makes the message
  -- queue and the segments without an exit. It starts with these and with
  -- the values of the last option of each kind or the default, and each worker's argument is set.
  pub webproxy_main-Allowed :
      webproxy_main sizeof_cache ipc (true, true) options ≡ run (w, made) ↔ (
        (all_known is_webproxy_option options ≡ true)
        × (Allowed sizeof_cache (webproxy_last options)
            × ((init_handlers ipc (to_int (webproxy_last options).nsegments) ≡ run made)
                × (w ≡ cache_proxy (webproxy_last options)))))
  unfolding webproxy_main
  webproxy_main-Allowed =
      let o = webproxy_last options in
      let (s, some_server) = some_last options in
      loop_iff apply_webproxy is_webproxy_option webproxy_option webproxy_option-Applies _ _ options
        webproxy_defaults o (w, made) (apply_all-webproxy_last options)
        (guards_then (Allowed sizeof_cache o) _ (webproxy_guards sizeof_cache) (webproxy_start ipc)
          o (w, made) (λ b. guards-Allowed sizeof_cache o b s some_server)
          (Allowed-guards sizeof_cache o s some_server) (start_iff ipc o w made))
