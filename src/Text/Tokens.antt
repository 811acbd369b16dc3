-- ===== src/Text/Tokens.antt =====
-- What the functions of cache/simplecache.c and gflib/content.c make of a well-formed line.
use cache_server.Base.{
  ℕ, zero, suc, ◌≤◌, ◌<◌, ◌≡◌, ◌≢◌, refl, none, some, List, [], ◌∷◌, ◌++◌, arith, length, false,
  true,
}
use cache_server.Text.{Bytes, fgets_line, cstring, chop, is_blank, split_blank}

module _ {ℓ} {A : Type ℓ} (P : A → Type 0) where
  abbrev pub All : List A → Type 0
  All [] = Unit
  All (c ∷ s) = P c × All s

-- A byte of a token: no NUL, no newline, no blank.
abbrev pub IsPlain : ℕ → Type 0
IsPlain c = (c ≢ 0) × (c ≢ b'\n') × (is_blank c ≡ false)

-- A byte inside a line.
abbrev pub IsInline : ℕ → Type 0
IsInline c = (c ≢ 0) × (c ≢ b'\n')

pub All-append : (P : ℕ → Type 0) (s t : Bytes) → All P s → All P t → All P (s ++ t)
All-append P [] t a b = b
All-append P (c ∷ s) t (p, a) b = (p, All-append P s t a b)

pub All-IsInline : (s : Bytes) → All IsPlain s → All IsInline s
All-IsInline [] a = tt
All-IsInline (c ∷ s) ((z, n, b), a) = ((z, n), All-IsInline s a)

-- A line that fits is read whole, with its newline.
pub fgets_line-newline :
    (room : ℕ) (line rest : Bytes)
    → All IsInline line
    → length line < room
    → fgets_line room (line ++ b'\n' ∷ rest) ≡ (line ++ b'\n' ∷ [], rest)
unfolding fgets_line
fgets_line-newline zero line rest a lt = absurd (omega arith)
fgets_line-newline (suc room) [] rest a lt = refl
fgets_line-newline (suc room) (c ∷ s) rest ((z, n), a) lt =
    ground (arith, fgets_line-newline room s rest a)

-- A last line with no newline is read whole too.
pub fgets_line-end :
    (room : ℕ) (line : Bytes)
    → All IsInline line
    → length line ≤ room
    → fgets_line room line ≡ (line, [])
unfolding fgets_line
fgets_line-end zero [] a le = refl
fgets_line-end zero (c ∷ s) a le = absurd (omega arith)
fgets_line-end (suc room) [] a le = refl
fgets_line-end (suc room) (c ∷ s) ((z, n), a) le = ground (arith, fgets_line-end room s a)

pub cstring_whole : (s : Bytes) → All (λ c. c ≢ 0) s → cstring s ≡ s
unfolding cstring
cstring_whole [] a = refl
cstring_whole (c ∷ s) (z, a) = ground (arith, cstring_whole s a)

pub chop-snoc : (s : Bytes) (c : ℕ) → chop (s ++ c ∷ []) ≡ some s
unfolding chop
chop-snoc [] c = refl
chop-snoc (d ∷ []) c = refl
chop-snoc (d ∷ e ∷ s) c = rw (chop-snoc (e ∷ s) c)

pub split_blank-token :
    (s rest : Bytes) (b : ℕ)
    → All IsPlain s
    → is_blank b ≡ true
    → split_blank (s ++ b ∷ rest) ≡ (s, some rest)
unfolding split_blank
split_blank-token [] rest b a h = rw h
split_blank-token (c ∷ s) rest b ((z, n, p), a) h = rw (p, split_blank-token s rest b a h)

pub split_blank-end : (s : Bytes) → All IsPlain s → split_blank s ≡ (s, none)
unfolding split_blank
split_blank-end [] a = refl
split_blank-end (c ∷ s) ((z, n, p), a) = rw (p, split_blank-end s a)
