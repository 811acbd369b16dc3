-- ===== src/Getfile/Request.antt =====
-- gflib/gfclient.c and gflib/gfserver.c: a request is read back as it was sent.
use mathlib.Core.Path.{subst}
use cache_server.Base.{
  ℕ, ◌+◌, ◌<◌, ◌≡◌, ◌≢◌, refl, sym, ap, ◌∙◌, true, some, List, [], ◌∷◌, ◌++◌, arith, append_assoc,
  length, length-append, ltb,
}
use cache_server.Base.Int.{pos}
use cache_server.Text.{Bytes, codes}
use cache_server.Text.Tokens.{All, All-append, cstring_whole}
use cache_server.Rio.{Answer, Got, readheader, header_size, crlf_crlf}
use cache_server.Rio.Write.{Patient}
use cache_server.Rio.Header.{IsInner, readheader-Whole}
use cache_server.Getfile.{format_request, parse_head, parse_string}
use cache_server.Getfile.Words.{
  IsVisible, word-space, visible-nonzero, visible-inner, printable-inner, printable-nonzero,
}

abbrev pub request_text : Bytes → Bytes
request_text path = (codes "GETFILE GET " ++ path) ++ b' ' ∷ crlf_crlf

pub request-length : (path : Bytes) → length (request_text path) ≡ length path + 17
request-length path = omega (arith, length-append path (b' ' ∷ crlf_crlf))

pub request-fits :
    (path : Bytes) → length path < 183 → format_request path ≡ some (request_text path)
request-fits path lt =
    let fits : ltb (length (request_text path)) header_size ≡ true =
      ground (arith, lt, length-append path (b' ' ∷ crlf_crlf)) in
    rw (format_request, fits) refl

request-nonzero : (path : Bytes) → All IsVisible path → All (λ c. c ≢ 0) (request_text path)
request-nonzero path a =
    All-append (λ c. c ≢ 0) (codes "GETFILE GET " ++ path) (b' ' ∷ crlf_crlf)
      (All-append (λ c. c ≢ 0) (codes "GETFILE GET ") path
        (printable-nonzero (codes "GETFILE GET ") refl) (visible-nonzero path a))
      (
        (λ e. omega (arith, e)),
        (
          (λ e. omega (arith, e)),
          ((λ e. omega (arith, e)), ((λ e. omega (arith, e)), ((λ e. omega (arith, e)), tt))),
        ),
      )

parse_string-request :
    (tail : Bytes)
    → All IsVisible (b'/' ∷ tail)
    → parse_string (request_text (b'/' ∷ tail)) ≡ some (b'/' ∷ tail)
unfolding parse_string
parse_string-request tail a =
    ap (λ (q : Bytes × Bytes). some q.0) (word-space (b'/' ∷ tail) crlf_crlf b' ' a refl)

parse_head-request :
    (tail : Bytes)
    → All IsVisible (b'/' ∷ tail)
    → parse_head (request_text (b'/' ∷ tail)) ≡ some (b'/' ∷ tail)
unfolding parse_head
parse_head-request tail a =
    ap parse_string (cstring_whole (request_text (b'/' ∷ tail)) (request-nonzero (b'/' ∷ tail) a))
    ∙ parse_string-request tail a

request-read :
    (path rest : Bytes) (k : ℕ) (script : List Answer)
    → All IsVisible path
    → length path < 183
    → Patient (length path + 17 + k) script
    → (script' : List Answer) × Patient k script'
      × (readheader script (request_text path ++ rest) ≡ record {
        result = some (pos (length path + 17));
        bytes = request_text path;
        incoming = rest;
        answers = script';
      })
request-read path rest k script a lt p =
    let s = codes "GETFILE GET " ++ path in
    let inner =
      All-append IsInner s (b' ' ∷ [])
        (All-append IsInner (codes "GETFILE GET ") path
          (printable-inner (codes "GETFILE GET ") refl) (visible-inner path a))
        (((λ e. omega (arith, e)), λ e. omega (arith, e)), tt) in
    let size : length s + 5 ≡ length path + 17 = omega arith in
    let (script', p', e) =
      readheader-Whole s b' ' rest k script inner (λ e. omega (arith, e)) (omega (arith, lt, size))
        (subst (λ n. Patient (n + k) script) (sym size) p) in
    let front : (s ++ b' ' ∷ []) ++ crlf_crlf ≡ request_text path =
      append_assoc s (b' ' ∷ []) crlf_crlf in
    let whole : request_text path ++ rest ≡ (s ++ b' ' ∷ []) ++ (crlf_crlf ++ rest) =
      append_assoc s (b' ' ∷ crlf_crlf) rest
      ∙ sym (append_assoc s (b' ' ∷ []) (crlf_crlf ++ rest)) in
    (
      script',
      p',
      ap (readheader script) whole ∙ e ∙ λ i. record {
        result = some (pos (size i));
        bytes = front i;
        incoming = rest;
        answers = script';
      },
    )

-- A request for a path of visible characters that starts with a slash and has less than 183 bytes fits
-- the buffer; the server reads it to its end and no further, however it arrives, and gets the path.
pub request-path :
    (tail rest : Bytes) (k : ℕ) (script : List Answer)
    → All IsVisible (b'/' ∷ tail)
    → length (b'/' ∷ tail) < 183
    → Patient (length (b'/' ∷ tail) + 17 + k) script
    → (text : Bytes) × (format_request (b'/' ∷ tail) ≡ some text)
      × ((readheader script (text ++ rest)).bytes ≡ text)
      × ((readheader script (text ++ rest)).result ≡ some (pos (length text)))
      × ((readheader script (text ++ rest)).incoming ≡ rest)
      × (parse_head text ≡ some (b'/' ∷ tail))
request-path tail rest k script a lt p =
    let path = b'/' ∷ tail in
    let (script', p', e) = request-read path rest k script a lt p in
    (
      request_text path,
      request-fits path lt,
      ap (λ (g : Got). g.bytes) e,
      ap (λ (g : Got). g.result) e ∙ ap (λ n. some (pos n)) (sym (request-length path)),
      ap (λ (g : Got). g.incoming) e,
      parse_head-request tail a,
    )
