-- ===== src/Text.antt =====
-- C strings as lists of their bytes, with no terminator: the library functions that cache/simplecache.c,
-- gflib/content.c and the GETFILE headers of gflib/ use.
pub mod Order
pub mod Lines
pub mod Tokens
use Prim.Native.Char.{code}
use Prim.Native.String.{String}
use Prim.Native.Nat.{compare, Ordering}
use cache_server.Base.{
  ℕ, zero, suc, ◌+◌, Bool, true, false, ◌||◌, Option, none, some, List, [], ◌∷◌, ◌++◌, ◌==◌,
  if◌then◌else◌,
}

abbrev pub Bytes : Type 0
Bytes = List ℕ

-- The bytes of an ASCII literal.
abbrev pub codes : String → Bytes
codes String.[] = []
codes (String.◌∷◌ c s) = code c ∷ codes s

-- `strcmp`: by the first bytes that differ, and a proper prefix is less.
unfoldable pub strcmp : Bytes → Bytes → Ordering
strcmp [] [] = Ordering.eq
strcmp [] (y ∷ ys) = Ordering.lt
strcmp (x ∷ xs) [] = Ordering.gt
strcmp (x ∷ xs) (y ∷ ys) = elim (compare x y) [
  | Ordering.lt ↦ Ordering.lt
  | Ordering.eq ↦ strcmp xs ys
  | Ordering.gt ↦ Ordering.gt
]

-- The string in a buffer: its bytes up to the first NUL.
unfoldable pub cstring : Bytes → Bytes
cstring [] = []
cstring (c ∷ s) = if c == 0 then [] else c ∷ cstring s

-- `fgets(buf, size, file)` with `room = size - 1`: a line with its newline, cut at `room` bytes, and
-- the rest of the file. The accumulated line is empty at the end of the file only.
unfoldable pub fgets_line : ℕ → Bytes → Bytes × Bytes
fgets_line zero s = ([], s)
fgets_line (suc room) [] = ([], [])
fgets_line (suc room) (c ∷ s) =
    let (line, rest) = fgets_line room s in if c == b'\n' then (c ∷ [], s) else (c ∷ line, rest)

unfoldable pub fgets : ℕ → Bytes → Option (Bytes × Bytes)
unfolding fgets_line
fgets room [] = none
fgets room (c ∷ s) = some (fgets_line room (c ∷ s))

-- `strsep(&ptr, " \t")`: the token up to the first space or tab, and what follows that, if any.
abbrev pub is_blank : ℕ → Bool
is_blank c = (c == b' ') || (c == b'\t')

unfoldable pub split_blank : Bytes → Bytes × Option Bytes
split_blank [] = ([], none)
split_blank (c ∷ s) =
    let (token, rest) = split_blank s in if is_blank c then ([], some s) else (c ∷ token, rest)

unfoldable pub strsep : Option Bytes → Option Bytes × Option Bytes
unfolding split_blank
strsep none = (none, none)
strsep (some s) = let (token, rest) = split_blank s in (some token, rest)

-- `s[strlen(s) - 1] = '\0'`; there is no such byte in an empty string.
unfoldable pub chop : Bytes → Option Bytes
chop [] = none
chop (c ∷ []) = some []
chop (c ∷ d ∷ s) = elim (chop (d ∷ s)) [ none ↦ none | some t ↦ some (c ∷ t) ]
