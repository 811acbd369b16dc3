-- ===== src/Getfile/Response.antt =====
-- gflib/gfserver.c and gflib/gfclient.c: a response is read back as it was sent.
use mathlib.Core.Path.{subst}
use cache_server.Base.{
  ℕ, ◌^◌, ◌<◌, ◌≡◌, ◌≢◌, refl, sym, ap, ◌∙◌, true, false, Option, none, some, [], ◌∷◌, ◌++◌, arith,
  ltb, if◌then◌else◌, ◌==◌, ◌⊎◌, inl, inr,
}
use cache_server.Text.{Bytes, codes, cstring, strcmp}
use cache_server.Text.Tokens.{All, All-append, cstring_whole}
use cache_server.Rio.{crlf_crlf}
use cache_server.Rio.Header.{IsInner}
use cache_server.Getfile.{
  gf_ok, gf_file_not_found, gf_invalid, gf_error, gfc_ok, gfc_file_not_found, gfc_error,
  gfc_invalid, digits, format_long, format_header, parse_response, response_string, scan_long,
  getstatus, skip_spaces, starts_number, is_space,
}
use cache_server.Getfile.Words.{printable-nonzero}
use cache_server.Getfile.Numbers.{
  IsDigit, digits-IsDigit, scan_long-format_long, digits-starts_number,
}

abbrev pub IsStatus : ℕ → Type 0
IsStatus status =
    (status ≡ gf_ok) ⊎ (status ≡ gf_file_not_found) ⊎ (status ≡ gf_invalid) ⊎ (status ≡ gf_error)

-- The header for `GF_OK`.
abbrev ok_text : ℕ → Bytes
ok_text n = (codes "GETFILE OK " ++ format_long n) ++ crlf_crlf

pub format_long-digits : (n : ℕ) → n < 2 ^ 63 → format_long n ≡ digits 20 n
unfolding format_long
format_long-digits n lt =
    let small : ltb n (2 ^ 63) ≡ true = ground (arith, lt) in rw (format_long, small) refl

digits-nonzero : (s : Bytes) → All IsDigit s → All (λ c. c ≢ 0) s
digits-nonzero [] a = tt
digits-nonzero (c ∷ s) ((lo, hi), a) = ((λ e. omega (arith, e, lo)), digits-nonzero s a)

pub digits-IsInner : (s : Bytes) → All IsDigit s → All IsInner s
digits-IsInner [] a = tt
digits-IsInner (c ∷ s) ((lo, hi), a) =
    (((λ e. omega (arith, e, lo)), λ e. omega (arith, e, lo)), digits-IsInner s a)

ok-nonzero : (n : ℕ) → n < 2 ^ 63 → All (λ c. c ≢ 0) (ok_text n)
ok-nonzero n lt =
    All-append (λ c. c ≢ 0) (codes "GETFILE OK " ++ format_long n) crlf_crlf
      (All-append (λ c. c ≢ 0) (codes "GETFILE OK ") (format_long n)
        (printable-nonzero (codes "GETFILE OK ") refl)
        (subst (All (λ c. c ≢ 0)) (sym (format_long-digits n lt))
          (digits-nonzero (digits 20 n) (digits-IsDigit 20 n))))
      (
        (λ e. omega (arith, e)),
        ((λ e. omega (arith, e)), ((λ e. omega (arith, e)), ((λ e. omega (arith, e)), tt))),
      )

skip_spaces-number : (s : Bytes) → starts_number s ≡ true → skip_spaces s ≡ s
skip_spaces-number [] h = refl
skip_spaces-number (c ∷ s) h = let solid : is_space c ≡ false = ground (arith, h) in rw solid refl

response_string-ok :
    (n old : ℕ) → n < 2 ^ 63 → response_string (ok_text n) old ≡ some (codes "OK", n)
unfolding response_string
response_string-ok n old lt =
    let number : skip_spaces (format_long n ++ crlf_crlf) ≡ format_long n ++ crlf_crlf =
      skip_spaces-number (format_long n ++ crlf_crlf)
        (rw (format_long-digits n lt) (digits-starts_number 19 n crlf_crlf)) in
    ap (λ m. some (codes "OK", m))
      (ap (λ s. scan_long s old) number
        ∙ scan_long-format_long n old (b'\n' ∷ b'\r' ∷ b'\n' ∷ []) lt)

-- What the client makes of a header.
abbrev pub Means : (status len : ℕ) → Option (Bytes × ℕ) → Type 0
Means status len none = ⊥
Means status len (some (name, n)) = (getstatus name ≡ status) × (n ≡ len)

getstatus-names :
    (getstatus (codes "OK") ≡ gfc_ok)
    × (getstatus (codes "FILE_NOT_FOUND") ≡ gfc_file_not_found)
    × (getstatus (codes "INVALID") ≡ gfc_invalid)
    × (getstatus (codes "ERROR") ≡ gfc_error)
unfolding getstatus strcmp
getstatus-names = (refl, refl, refl, refl)

-- The client's constant with the name of the server's.
abbrev pub client_status : ℕ → ℕ
client_status status =
    if status == gf_ok
    then gfc_ok
    else if status == gf_file_not_found
    then gfc_file_not_found
    else if status == gf_error
    then gfc_error
    else gfc_invalid

abbrev Understood : ℕ → ℕ → ℕ → Type 0
Understood n old status =
    Means (client_status status) (if status == gf_ok then n else 0)
      (parse_response (format_header status n) old)

Understood-ok : (n old : ℕ) → n < 2 ^ 63 → Understood n old gf_ok
unfolding parse_response format_header
Understood-ok n old lt =
    subst (Means gfc_ok n)
      (sym (
        ap (λ s. response_string s old) (cstring_whole (ok_text n) (ok-nonzero n lt))
        ∙ response_string-ok n old lt))
      (getstatus-names.0, refl)

-- The other headers are literals.
Understood-error :
    (n old : ℕ)
    → Understood n old gf_file_not_found × Understood n old gf_invalid × Understood n old gf_error
unfolding parse_response format_header response_string scan_long cstring
Understood-error n old = let (o, f, i, e) = getstatus-names in ((f, refl), (i, refl), (e, refl))

-- For each status of the server, the client reads from the server's header its own status of that name, and the length that was
-- sent with `GF_OK`, if it is below 2^63, or 0 with the others.
pub response-Means :
    (status n old : ℕ)
    → IsStatus status
    → n < 2 ^ 63
    → Means
        (client_status status)
        (if status == gf_ok then n else 0)
        (parse_response (format_header status n) old)
response-Means status n old known lt =
    let (f, i, e) = Understood-error n old in
    elim known [
      | inl q ↦ subst (Understood n old) (sym q) (Understood-ok n old lt)
      | inr (inl q) ↦ subst (Understood n old) (sym q) f
      | inr (inr (inl q)) ↦ subst (Understood n old) (sym q) i
      | inr (inr (inr q)) ↦ subst (Understood n old) (sym q) e
    ]
