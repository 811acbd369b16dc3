-- ===== src/Options/Numbers.antt =====
-- `atoi` reads what a decimal number prints as, and the conversions keep what fits.
use mathlib.Core.List.{append-nil}
use cache_server.Base.{ℕ, ◌^◌, ◌<◌, ◌≤◌, ◌≡◌, refl, ap, sym, ◌∙◌, true, false, [], ◌∷◌, arith}
use cache_server.Base.Int.{pos, negsuc}
use cache_server.Text.{Bytes}
use cache_server.Getfile.{digits, scan_digits, scan_long, starts_number, skip_spaces, is_space}
use cache_server.Getfile.Numbers.{digits-starts_number, scan_digits-digits, scan_long-unsigned}
use cache_server.Options.{to_int, to_unsigned, atoi}

skip_spaces-starts_number : (s : Bytes) → starts_number s ≡ true → skip_spaces s ≡ s
skip_spaces-starts_number [] h = refl
skip_spaces-starts_number (c ∷ s) h =
    let digit : is_space c ≡ false = ground (arith, h) in rw digit refl

-- A number as `printf("%d")` prints it.
abbrev pub decimal : ℕ → Bytes
decimal n = digits 20 n

pub to_int-fits : (n : ℕ) → n < 2 ^ 31 → to_int n ≡ pos n
unfolding to_int
to_int-fits n h = ground (arith, h)

pub atoi-decimal : (n : ℕ) → n < 2 ^ 31 → atoi (decimal n) ≡ pos n
unfolding atoi scan_digits
atoi-decimal n h =
    let starts : starts_number (decimal n) ≡ true =
      ap starts_number (sym (append-nil (decimal n))) ∙ digits-starts_number 19 n [] in
    let value : scan_digits 0 (decimal n) ≡ n =
      ap (scan_digits 0) (sym (append-nil (decimal n)))
      ∙ scan_digits-digits 20 n [] (omega arith) in
    let read = scan_long-unsigned (decimal n) 0 starts (rw value (omega arith)) ∙ value in
    ap to_int (ap (λ s. scan_long s 0) (skip_spaces-starts_number (decimal n) starts) ∙ read)
    ∙ to_int-fits n h

pub to_int-negative : (k : ℕ) → k < 2 ^ 31 → to_int (to_unsigned (2 ^ 32) (negsuc k)) ≡ negsuc k
unfolding to_int to_unsigned
to_int-negative k h = ground (arith, h)

pub short-fits : (n : ℕ) → n < 2 ^ 16 → to_unsigned (2 ^ 16) (pos n) ≡ n
unfolding to_unsigned
short-fits n h = omega arith

pub uint-fits : (n : ℕ) → n < 2 ^ 31 → to_unsigned (2 ^ 32) (pos n) ≡ n
unfolding to_unsigned
uint-fits n h = omega arith

pub size-fits : (n : ℕ) → n < 2 ^ 31 → to_unsigned (2 ^ 64) (pos n) ≡ n
unfolding to_unsigned
size-fits n h = omega arith

pub uint-negative : (k : ℕ) → k < 2 ^ 31 → 1 ≤ to_unsigned (2 ^ 32) (negsuc k)
unfolding to_unsigned
uint-negative k h = omega arith
