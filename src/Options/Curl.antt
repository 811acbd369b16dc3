-- ===== src/Options/Curl.antt =====
-- curl/webproxy.c: exactly which command lines start the proxy, and with which values.
use cache_server.Base.{
  ℕ, ◌≤◌, ◌≡◌, ◌↔◌, refl, ap, inl, inr, Option-cases, Bool, true, ◌||◌, Option, some, List, ◌==◌,
  if◌then◌else◌, arith,
}
use cache_server.Text.{Bytes}
use cache_server.Options.{run, Answer}
use cache_server.Options.Settings.{Settings, curl_handler}
use cache_server.Options.Proxies.{
  CurlProxy, curl_defaults, curl_option, curl_guards, curl_main, default_server,
}
use cache_server.Options.Setup.{serving, set_up-serving}
use cache_server.Options.Loop.{
  last_arg, value_or, all_known, apply_all, apply_all-last_arg, Applies, loop_iff, guards_iff,
}
use cache_server.Options.Accepts.{short_arg}

abbrev pub is_curl_option : ℕ → Bool
is_curl_option k = (k == b'p') || (k == b's') || (k == b't')

abbrev apply_curl : ℕ → Bytes → CurlProxy → CurlProxy
apply_curl k arg o = record {
  port = if k == b'p' then short_arg arg else o.port;
  nworkerthreads = if k == b't' then short_arg arg else o.nworkerthreads;
  server = if k == b's' then some arg else o.server;
}

curl_option-Applies : Applies apply_curl is_curl_option curl_option
unfolding curl_option
curl_option-Applies k arg o = (λ e. ground (arith, e), λ b e. ground (arith, e))

-- The values of the last options of each kind, or the defaults.
unfoldable pub curl_last : List Answer → CurlProxy
curl_last options = record {
  port = value_or short_arg 8803 (last_arg b'p' options);
  nworkerthreads = value_or short_arg 1 (last_arg b't' options);
  server = value_or some default_server (last_arg b's' options);
}

apply_all-curl_last :
    (options : List Answer) → apply_all apply_curl options curl_defaults ≡ curl_last options
unfolding curl_last
apply_all-curl_last options =
    let p =
      apply_all-last_arg apply_curl ℕ (λ o. o.port) b'p' short_arg (λ k arg o. refl) options
        curl_defaults in
    let t =
      apply_all-last_arg apply_curl ℕ (λ o. o.nworkerthreads) b't' short_arg (λ k arg o. refl)
        options curl_defaults in
    let s =
      apply_all-last_arg apply_curl (Option Bytes) (λ o. o.server) b's' some (λ k arg o. refl)
        options curl_defaults in
    λ i. record { port = p i; nworkerthreads = t i; server = s i }

abbrev pub CurlAllowed : CurlProxy → Type 0
CurlAllowed o = (1024 ≤ o.port) × (1 ≤ o.nworkerthreads) × (o.nworkerthreads ≤ 1024)

guards-CurlAllowed :
    (o b : CurlProxy) (s : Bytes)
    → o.server ≡ some s
    → curl_guards o ≡ run b
    → CurlAllowed o × (b ≡ o)
unfolding curl_guards
guards-CurlAllowed o b s some_server e = ground (arith, some_server, e)

CurlAllowed-guards :
    (o : CurlProxy) (s : Bytes) → o.server ≡ some s → CurlAllowed o → curl_guards o ≡ run o
unfolding curl_guards
CurlAllowed-guards o s some_server allowed = ground (arith, some_server, allowed)

some_last : (options : List Answer) → (s : Bytes) × ((curl_last options).server ≡ some s)
unfolding curl_last
some_last options = elim (Option-cases (last_arg b's' options)) [
  | inl e ↦ (_, ap (value_or some default_server) e)
  | inr e ↦ (e.0, ap (value_or some default_server) e.1)
]

unfoldable pub curl_settings : CurlProxy → Settings
curl_settings o = serving o.nworkerthreads o.port 12 curl_handler o.server

module _ (options : List Answer) (gfs : Settings) where
  pub curl_main-CurlAllowed : curl_main (true, true) options ≡ run gfs ↔ (
      (all_known is_curl_option options ≡ true)
      × (CurlAllowed (curl_last options) × (gfs ≡ curl_settings (curl_last options))))
  unfolding curl_main curl_settings
  curl_main-CurlAllowed =
      let o = curl_last options in
      let (s, some_server) = some_last options in
      loop_iff apply_curl is_curl_option curl_option curl_option-Applies _ _ options curl_defaults o
        gfs (apply_all-curl_last options)
        (guards_iff (CurlAllowed o) curl_guards _ o gfs (curl_settings o)
          (λ b. guards-CurlAllowed o b s some_server) (CurlAllowed-guards o s some_server)
          (set_up-serving o.nworkerthreads o.port 12 curl_handler o.server))
