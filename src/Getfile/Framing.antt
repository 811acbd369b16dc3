-- ===== src/Getfile/Framing.antt =====
-- gflib/gfserver.c and gflib/gfclient.c: a response header is read to its end and no further.
use mathlib.Core.Path.{subst}
use cache_server.Base.{
  ℕ, ◌+◌, ◌/◌, ◌%◌, ◌^◌, ◌≤◌, ◌<◌, ◌≡◌, ◌≢◌, refl, sym, ap, ◌∙◌, some, List, [], ◌∷◌, ◌++◌, arith,
  append_assoc, length, length-append, leb, inl, inr, Bool-cases,
}
use cache_server.Base.Int.{pos}
use cache_server.Text.{Bytes, codes}
use cache_server.Text.Tokens.{All, All-append}
use cache_server.Rio.{Answer, readheader, header_size, crlf_crlf}
use cache_server.Rio.Write.{Patient}
use cache_server.Rio.Header.{IsInner, readheader-Whole}
use cache_server.Getfile.{gf_ok, gf_file_not_found, gf_invalid, gf_error, digits, format_header}
use cache_server.Getfile.Words.{printable-inner}
use cache_server.Getfile.Numbers.{IsDigit, digits-IsDigit, length-digits}
use cache_server.Getfile.Response.{IsStatus, format_long-digits, digits-IsInner}

-- A header is a text without CR and LF, not ended by `r`, before its delimiter.
abbrev Shape : ℕ → ℕ → Type 0
Shape n status =
    (s : Bytes) × (c : ℕ) × (format_header status n ≡ (s ++ c ∷ []) ++ crlf_crlf)
    × All IsInner (s ++ c ∷ [])
    × (c ≢ b'r')
    × (length s + 5 < header_size)

digits-last :
    (n : ℕ)
    → (s : Bytes) × (digits 20 n ≡ s ++ (48 + n % 10) ∷ []) × All IsDigit s × (length s ≤ 19)
unfolding digits
digits-last n = elim (Bool-cases (leb 10 n)) [
  | inl e ↦ (
    digits 19 (n / 10),
    rw (digits, e) refl,
    digits-IsDigit 19 (n / 10),
    length-digits 19 (n / 10),
  )
  | inr e ↦ ([], rw (digits, e) refl, tt, omega arith)
]

Shape-ok : (n : ℕ) → n < 2 ^ 63 → Shape n gf_ok
unfolding format_header
Shape-ok n lt =
    let (s, e, d, small) = digits-last n in
    (
      codes "GETFILE OK " ++ s,
      48 + n % 10,
      ap (λ t. (codes "GETFILE OK " ++ t) ++ crlf_crlf) (format_long-digits n lt ∙ e),
      All-append IsInner (codes "GETFILE OK " ++ s) ((48 + n % 10) ∷ [])
          (All-append IsInner (codes "GETFILE OK ") s (printable-inner (codes "GETFILE OK ") refl)
            (digits-IsInner s d))
          (((λ e. omega arith), λ e. omega arith), tt),
      (λ e. omega arith),
      omega (arith, small),
    )

Shape-error : (n : ℕ) → Shape n gf_file_not_found × Shape n gf_invalid × Shape n gf_error
unfolding format_header
Shape-error n = (
  (
    codes "GETFILE FILE_NOT_FOUND ",
    b'0',
    refl,
    printable-inner (codes "GETFILE FILE_NOT_FOUND 0") refl,
    (λ e. omega (arith, e)),
    omega arith,
  ),
  (
    codes "GETFILE INVALID ",
    b'0',
    refl,
    printable-inner (codes "GETFILE INVALID 0") refl,
    (λ e. omega (arith, e)),
    omega arith,
  ),
  (
    codes "GETFILE ERROR ",
    b'0',
    refl,
    printable-inner (codes "GETFILE ERROR 0") refl,
    (λ e. omega (arith, e)),
    omega arith,
  ),
)

header-Shape : (status n : ℕ) → IsStatus status → n < 2 ^ 63 → Shape n status
header-Shape status n known lt =
    let (f, i, e) = Shape-error n in
    elim known [
      | inl q ↦ subst (Shape n) (sym q) (Shape-ok n lt)
      | inr (inl q) ↦ subst (Shape n) (sym q) f
      | inr (inr (inl q)) ↦ subst (Shape n) (sym q) i
      | inr (inr (inr q)) ↦ subst (Shape n) (sym q) e
    ]

-- The client reads every header of the server to its end and no further, however it arrives.
pub response-read :
    (status n : ℕ) (rest : Bytes) (k : ℕ) (script : List Answer)
    → IsStatus status
    → n < 2 ^ 63
    → Patient (length (format_header status n) + k) script
    → (script' : List Answer) × Patient k script'
      × (readheader script (format_header status n ++ rest) ≡ record {
        result = some (pos (length (format_header status n)));
        bytes = format_header status n;
        incoming = rest;
        answers = script';
      })
response-read status n rest k script known lt p =
    let (s, c, e, inner, end, fits) = header-Shape status n known lt in
    let size : length s + 5 ≡ length (format_header status n) =
      omega (arith, length-append (s ++ c ∷ []) crlf_crlf, length-append s (c ∷ []))
      ∙ ap length (sym e) in
    let (script', p', r) =
      readheader-Whole s c rest k script inner end fits
        (subst (λ m. Patient (m + k) script) (sym size) p) in
    (
      script',
      p',
      ap (readheader script) (ap (λ t. t ++ rest) e ∙ append_assoc (s ++ c ∷ []) crlf_crlf rest)
          ∙ r
          ∙ λ i. record {
            result = some (pos (size i));
            bytes = sym e i;
            incoming = rest;
            answers = script';
          },
    )

pub header-pos : (status n : ℕ) → IsStatus status → n < 2 ^ 63 → 0 < length (format_header status n)
header-pos status n known lt =
    let (s, c, e, inner, end, fits) = header-Shape status n known lt in
    subst (λ t. 0 < length t) (sym e) (omega (arith, length-append (s ++ c ∷ []) crlf_crlf))
