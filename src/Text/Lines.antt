-- ===== src/Text/Lines.antt =====
-- `fgets` cuts a file into lines and loses nothing.
use cache_server.Base.{ℕ, zero, suc, ◌≤◌, ◌<◌, ◌≡◌, refl, some, [], ◌∷◌, ◌++◌, arith, length}
use cache_server.Text.{Bytes, fgets_line, fgets}

-- The line and the rest are the file, and the line fits the buffer.
pub fgets_line-append :
    (room : ℕ) (s : Bytes)
    → ((fgets_line room s).0 ++ (fgets_line room s).1 ≡ s) × (length (fgets_line room s).0 ≤ room)
unfolding fgets_line
fgets_line-append zero s = (refl, omega arith)
fgets_line-append (suc room) [] = (refl, omega arith)
fgets_line-append (suc room) (c ∷ s) = ground (arith, fgets_line-append room s)

fgets_line-rest : (room : ℕ) (s : Bytes) → length (fgets_line room s).1 ≤ length s
unfolding fgets_line
fgets_line-rest zero s = omega arith
fgets_line-rest (suc room) [] = omega arith
fgets_line-rest (suc room) (c ∷ s) = ground (arith, fgets_line-rest room s)

-- Each call takes at least one byte.
pub fgets-lt :
    (room : ℕ) (s line rest : Bytes)
    → 0 < room
    → fgets room s ≡ some (line, rest)
    → length rest < length s
unfolding fgets
fgets-lt room [] line rest pos h = cc
fgets-lt zero (c ∷ s) line rest pos h = absurd (omega arith)
fgets-lt (suc room) (c ∷ s) line rest pos h = ground (arith, fgets_line-rest room s)
