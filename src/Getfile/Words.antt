-- ===== src/Getfile/Words.antt =====
-- gflib/gfserver.c and gflib/gfclient.c: the words that `sscanf` reads.
use cache_server.Base.{ℕ, ◌≡◌, ◌≢◌, refl, true, false, [], ◌∷◌, ◌++◌, arith, Bool, ◌&&◌, leb}
use cache_server.Text.{Bytes}
use cache_server.Text.Tokens.{All}
use cache_server.Getfile.{is_space, word}

&&_true : (a b : Bool) → (a && b) ≡ true → (a ≡ true) × (b ≡ true)
&&_true a b h = ground arith

-- A byte of a word.
abbrev pub IsVisible : ℕ → Type 0
IsVisible c = (c ≢ 0) × (is_space c ≡ false)

pub word-space :
    (s rest : Bytes) (b : ℕ)
    → All IsVisible s
    → is_space b ≡ true
    → word (s ++ b ∷ rest) ≡ (s, b ∷ rest)
unfolding word
word-space [] rest b a h = rw h refl
word-space (c ∷ s) rest b ((z, v), a) h = rw (v, word-space s rest b a h) refl

pub visible-nonzero : (s : Bytes) → All IsVisible s → All (λ c. c ≢ 0) s
visible-nonzero [] a = tt
visible-nonzero (c ∷ s) ((z, v), a) = (z, visible-nonzero s a)

-- A visible byte is no CR and no LF.
pub visible-inner : (s : Bytes) → All IsVisible s → All (λ c. (c ≢ b'\r') × (c ≢ b'\n')) s
visible-inner [] a = tt
visible-inner (c ∷ s) ((z, v), a) =
    (((λ e. ground (arith, e, v)), λ e. ground (arith, e, v)), visible-inner s a)

-- A test for literals: no control characters.
abbrev pub printable : Bytes → Bool
printable [] = true
printable (c ∷ s) = leb 32 c && printable s

pub printable-inner : (s : Bytes) → printable s ≡ true → All (λ c. (c ≢ b'\r') × (c ≢ b'\n')) s
printable-inner [] h = tt
printable-inner (c ∷ s) h =
    let (big, rest) = &&_true (leb 32 c) (printable s) h in
    (((λ e. ground (arith, e, big)), λ e. ground (arith, e, big)), printable-inner s rest)

pub printable-nonzero : (s : Bytes) → printable s ≡ true → All (λ c. c ≢ 0) s
printable-nonzero [] h = tt
printable-nonzero (c ∷ s) h =
    let (big, rest) = &&_true (leb 32 c) (printable s) h in
    ((λ e. ground (arith, e, big)), printable-nonzero s rest)
