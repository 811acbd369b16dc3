-- ===== src/Getfile/Numbers.antt =====
-- gflib/gfserver.c and gflib/gfclient.c: a length is printed and read back.
use native.Mathlib.Numerals.{unary_clauses}
use cache_server.Base.{
  ℕ, zero, suc, ◌+◌, ◌-◌, ◌*◌, ◌/◌, ◌%◌, ◌^◌, ◌≤◌, ◌<◌, ◌≡◌, refl, ap, ◌∙◌, true, false, [], ◌∷◌,
  ◌++◌, arith, append_assoc, leb, ◌==◌, length, length-append, Bool-cases, inl, inr, ltb, ◌&&◌,
}
use cache_server.Text.{Bytes}
use cache_server.Text.Tokens.{All, All-append}
use cache_server.Getfile.{digits, format_long, scan_digits, scan_long, starts_number, unsigned}

abbrev pub IsDigit : ℕ → Type 0
IsDigit c = (48 ≤ c) × (c ≤ 57)

pub digits-IsDigit : (fuel n : ℕ) → All IsDigit (digits fuel n)
unfolding digits
digits-IsDigit zero n = tt
digits-IsDigit (suc fuel) n = elim (Bool-cases (leb 10 n)) [
  | inl e ↦ rw e (
      All-append IsDigit (digits fuel (n / 10)) ((48 + n % 10) ∷ []) (digits-IsDigit fuel (n / 10))
        ((omega arith, omega arith), tt))
  | inr e ↦ rw e ((omega arith, omega arith), tt)
]

pub length-digits : (fuel n : ℕ) → length (digits fuel n) ≤ fuel
unfolding digits
length-digits zero n = omega arith
length-digits (suc fuel) n = elim (Bool-cases (leb 10 n)) [
  | inl e ↦ rw e (
      omega (
        arith,
        length-append (digits fuel (n / 10)) ((48 + n % 10) ∷ []),
        length-digits fuel (n / 10),
      ))
  | inr e ↦ rw e (omega arith)
]

scan_digits-digit :
    (a d : ℕ) (rest : Bytes)
    → d < 10
    → scan_digits a ((48 + d) ∷ rest) ≡ scan_digits (a * 10 + d) rest
unfolding scan_digits
scan_digits-digit a d rest lt =
    let in_range : (leb b'0' (48 + d) && leb (48 + d) b'9') ≡ true = ground arith in
    let same : 48 + d - 48 ≡ d = omega arith in rw (scan_digits, in_range, same) refl

pub scan_digits-digits :
    (fuel n : ℕ) (rest : Bytes)
    → n < 10 ^ fuel
    → scan_digits 0 (digits fuel n ++ rest) ≡ scan_digits n rest
unfolding digits
scan_digits-digits zero n rest lt = let none_left : n ≡ 0 = omega (arith, lt) in rw none_left refl
scan_digits-digits (suc fuel) n rest lt = elim (Bool-cases (leb 10 n)) [
  | inl e ↦
      let less : n / 10 < 10 ^ fuel = omega (arith, simp unary_clauses at lt) in
      let whole : n / 10 * 10 + n % 10 ≡ n = omega arith in
      rw (digits, e)
        (ap (scan_digits 0) (append_assoc (digits fuel (n / 10)) ((48 + n % 10) ∷ []) rest)
          ∙ scan_digits-digits fuel (n / 10) ((48 + n % 10) ∷ rest) less
          ∙ scan_digits-digit (n / 10) (n % 10) rest (omega arith)
          ∙ ap (λ m. scan_digits m rest) whole)
  | inr e ↦
      let whole : 0 * 10 + n % 10 ≡ n = ground (arith, e) in
      rw (digits, e)
        (scan_digits-digit 0 (n % 10) rest (omega arith) ∙ ap (λ m. scan_digits m rest) whole)
]

scan_digits-end : (n c : ℕ) (rest : Bytes) → c < 48 → scan_digits n (c ∷ rest) ≡ n
unfolding scan_digits
scan_digits-end n c rest lt =
    let out : (leb b'0' c && leb c b'9') ≡ false = ground arith in rw (scan_digits, out) refl

unsigned-fits :
    (s : Bytes) (old : ℕ)
    → starts_number s ≡ true
    → scan_digits 0 s < 2 ^ 63
    → unsigned s old ≡ scan_digits 0 s
unsigned-fits s old h lt = rw h (ground (arith, lt))

scan_long-tail :
    (c : ℕ) (s : Bytes) (old : ℕ)
    → starts_number (c ∷ s) ≡ true
    → scan_long (c ∷ s) old ≡ unsigned (c ∷ s) old
unfolding scan_long
scan_long-tail c s old h =
    let no_minus : (c == b'-') ≡ false = ground (arith, h) in
    let no_plus : (c == b'+') ≡ false = ground (arith, h) in rw (scan_long, no_minus, no_plus) refl

-- On a string of digits `%ld` is their value, if it fits a `long`.
pub scan_long-unsigned :
    (s : Bytes) (old : ℕ)
    → starts_number s ≡ true
    → scan_digits 0 s < 2 ^ 63
    → scan_long s old ≡ scan_digits 0 s
scan_long-unsigned [] old h lt = cc
scan_long-unsigned (c ∷ s) old h lt = scan_long-tail c s old h ∙ unsigned-fits (c ∷ s) old h lt

pub digits-starts_number :
    (fuel n : ℕ) (rest : Bytes) → starts_number (digits (suc fuel) n ++ rest) ≡ true
unfolding digits
digits-starts_number zero n rest = elim (Bool-cases (leb 10 n)) [
  | inl e ↦ rw (digits, e) (ground arith)
  | inr e ↦ rw (digits, e) (ground arith)
]
digits-starts_number (suc fuel) n rest = elim (Bool-cases (leb 10 n)) [
  | inl e ↦
      rw (digits, e)
        (ap starts_number (append_assoc (digits (suc fuel) (n / 10)) ((48 + n % 10) ∷ []) rest)
          ∙ digits-starts_number fuel (n / 10) ((48 + n % 10) ∷ rest))
  | inr e ↦ rw (digits, e) (ground arith)
]

-- A length below 2^63 is read back as it was printed.
pub scan_long-format_long :
    (n old : ℕ) (rest : Bytes) → n < 2 ^ 63 → scan_long (format_long n ++ b'\r' ∷ rest) old ≡ n
unfolding format_long
scan_long-format_long n old rest lt =
    let small : ltb n (2 ^ 63) ≡ true = ground (arith, lt) in
    let value : scan_digits 0 (digits 20 n ++ b'\r' ∷ rest) ≡ n =
      scan_digits-digits 20 n (b'\r' ∷ rest) (omega arith)
      ∙ scan_digits-end n b'\r' rest (omega arith) in
    rw (format_long, small)
      (scan_long-unsigned (digits 20 n ++ b'\r' ∷ rest) old
          (digits-starts_number 19 n (b'\r' ∷ rest)) (rw value lt)
        ∙ value)
