-- ===== src/Download/Local.antt =====
-- gflib/gfclient_download.c: the local paths fit their buffer, and differ.
use cache_server.Base.{
  ℕ, zero, suc, ◌+◌, ◌-◌, ◌*◌, ◌/◌, ◌%◌, ◌^◌, ◌≤◌, ◌<◌, ◌≡◌, refl, ap, sym, ◌∙◌, true, false, some,
  [], ◌∷◌, ◌++◌, ◌==◌, leb, ltb, lt→ltb, length, length-append, Bool-cases, inl, inr, if◌then◌else◌,
  arith,
}
use native.Mathlib.Numerals.{unary_clauses}
use cache_server.Text.{Bytes}
use cache_server.Getfile.{digits}
use cache_server.Getfile.Numbers.{length-digits}
use cache_server.Options.Settings.{replicate}
use cache_server.Download.Requests.{format_06d, local_path}

-- The number behind the last dash.
read_number : ℕ → Bytes → ℕ
read_number n [] = n
read_number n (c ∷ s) = if c == b'-' then read_number 0 s else read_number (n * 10 + (c - 48)) s

read_number-append :
    (n : ℕ) (s t : Bytes) → read_number n (s ++ t) ≡ read_number (read_number n s) t
unfolding read_number
read_number-append n [] t = refl
read_number-append n (c ∷ s) t = elim (Bool-cases (c == b'-')) [
  | inl e ↦ rw (read_number, e) (read_number-append 0 s t)
  | inr e ↦ rw (read_number, e) (read_number-append (n * 10 + (c - 48)) s t)
]

read_number-digit : (n d : ℕ) → d < 10 → read_number n ((48 + d) ∷ []) ≡ n * 10 + d
unfolding read_number
read_number-digit n d lt =
    let no_dash : ((48 + d) == b'-') ≡ false = ground (arith, lt) in
    rw (read_number, no_dash) (omega arith)

read_number-digits : (fuel n : ℕ) → n < 10 ^ fuel → read_number 0 (digits fuel n) ≡ n
unfolding digits read_number
read_number-digits zero n lt = let none_left : n ≡ 0 = omega (arith, lt) in rw none_left refl
read_number-digits (suc fuel) n lt = elim (Bool-cases (leb 10 n)) [
  | inl e ↦
      let less : n / 10 < 10 ^ fuel = omega (arith, simp unary_clauses at lt) in
      rw (digits, e)
        (read_number-append 0 (digits fuel (n / 10)) ((48 + n % 10) ∷ [])
          ∙ ap (λ m. read_number m ((48 + n % 10) ∷ [])) (read_number-digits fuel (n / 10) less)
          ∙ read_number-digit (n / 10) (n % 10) (omega arith)
          ∙ omega arith)
  | inr e ↦ rw (digits, e) (read_number-digit 0 (n % 10) (omega arith) ∙ ground (arith, e))
]

read_number-zeros : (k : ℕ) (s : Bytes) → read_number 0 (replicate k b'0' ++ s) ≡ read_number 0 s
unfolding read_number
read_number-zeros zero s = refl
read_number-zeros (suc k) s = read_number-zeros k s

read_number-format_06d : (n : ℕ) → n < 2 ^ 31 → read_number 0 (format_06d n) ≡ n
unfolding format_06d
read_number-format_06d n lt =
    read_number-zeros (6 - length (digits 20 n)) (digits 20 n)
    ∙ read_number-digits 20 n (omega arith)

-- The local path of the request with a number, for a path that starts with a slash.
unfoldable pub local_name : Bytes → ℕ → Bytes
local_name rest n = rest ++ b'-' ∷ format_06d n

-- Requests with different numbers are stored under different paths.
pub local_name-injective :
    (r s : Bytes) (m n : ℕ) → m < 2 ^ 31 → n < 2 ^ 31 → local_name r m ≡ local_name s n → m ≡ n
unfolding local_name read_number
local_name-injective r s m n small small' same =
    let value = λ (t : Bytes) (k : ℕ) (lt : k < 2 ^ 31).
      read_number-append 0 t (b'-' ∷ format_06d k) ∙ read_number-format_06d k lt in
    sym (value r m small) ∙ ap (read_number 0) same ∙ value s n small'

length-replicate : (k c : ℕ) → length (replicate k c) ≡ k
length-replicate zero c = refl
length-replicate (suc k) c = ap suc (length-replicate k c)

length-format_06d : (n : ℕ) → length (format_06d n) ≤ 26
unfolding format_06d
length-format_06d n = omega (
  arith,
  length-append (replicate (6 - length (digits 20 n)) b'0') (digits 20 n),
  length-replicate (6 - length (digits 20 n)) b'0',
  length-digits 20 n,
)

pub local_path-local_name :
    (c : ℕ) (rest : Bytes) (n : ℕ)
    → length rest ≤ 256
    → local_path (c ∷ rest) n ≡ some (local_name rest n)
unfolding local_path local_name
local_path-local_name c rest n short =
    let fits : ltb (length (rest ++ b'-' ∷ format_06d n)) 512 ≡ true =
      lt→ltb _ _ (omega (arith, length-append rest (b'-' ∷ format_06d n), length-format_06d n)) in
    rw (local_path, fits) refl
