-- ===== src/Table/Safe.antt =====
-- cache/simplecache.c and gflib/content.c: loading any list file is free of memory errors and ends.
use cache_server.Base.{
  ℕ, zero, suc, ◌+◌, ◌-◌, ◌<◌, ◌≤◌, ◌^◌, ◌≡◌, ◌≢◌, refl, Option, none, some, List, [], ◌∷◌, arith,
  ◌==◌, leb, length, Option-cases, Bool-cases, inl, inr, false,
}
use cache_server.Base.Int.{ℤ}
use cache_server.Text.{Bytes, fgets, fgets_line, chop, split_blank, strsep}
use cache_server.Text.Lines.{fgets-lt}
use cache_server.Text.Tokens.{All, cstring_whole}
use cache_server.Table.Array.{add_item-ok}
use cache_server.Table.{
  Item, Run, ok, fault, exits, out_of_fuel, Loaded, load_row, load_rows, table_init,
  simplecache_init, content_init, max_keylen_simplecache, max_keylen_content, cache_failure,
  exit_failure,
}

-- No NUL byte.
abbrev pub IsText : Bytes → Type 0
IsText = All (λ c. c ≢ 0)

-- A result, or the end of the process.
abbrev pub Ends : {A : Type 0} → Run A → Type 0
Ends (ok a) = Unit
Ends fault = ⊥
Ends (exits code) = Unit
Ends out_of_fuel = ⊥

-- `fopen` fails, or the file has no NUL byte.
abbrev pub IsTextFile : Option Bytes → Type 0
IsTextFile none = Unit
IsTextFile (some s) = IsText s

abbrev pub HasSize : Option Bytes → Type 0
HasSize none = Unit
HasSize (some s) = length s < 2 ^ 30

fgets_line-IsText :
    (room : ℕ) (s : Bytes) → IsText s → IsText (fgets_line room s).0 × IsText (fgets_line room s).1
unfolding fgets_line
fgets_line-IsText zero s a = (tt, a)
fgets_line-IsText (suc room) [] a = (tt, tt)
fgets_line-IsText (suc room) (c ∷ s) (z, a) = elim (Bool-cases (c == b'\n')) [
  | inl e ↦ rw e ((z, tt), a)
  | inr e ↦ rw e (let (l, r) = fgets_line-IsText room s a in ((z, l), r))
]

fgets_line-pos : (room c : ℕ) (s : Bytes) → 0 < length (fgets_line (suc room) (c ∷ s)).0
unfolding fgets_line
fgets_line-pos room c s = ground arith

-- What `fgets` reads is a string of at least one byte.
abbrev Good : Option (Bytes × Bytes) → Type 0
Good none = Unit
Good (some q) = IsText q.0 × IsText q.1 × (0 < length q.0)

fgets-IsText : (room : ℕ) (s : Bytes) → 0 < room → IsText s → Good (fgets room s)
unfolding fgets
fgets-IsText room [] pos a = tt
fgets-IsText zero (c ∷ s) pos a = absurd (omega arith)
fgets-IsText (suc room) (c ∷ s) pos a =
    let (l, r) = fgets_line-IsText (suc room) (c ∷ s) a in (l, r, fgets_line-pos room c s)

chop-some : (s : Bytes) → 0 < length s → (t : Bytes) × (chop s ≡ some t)
unfolding chop
chop-some [] pos = absurd (omega arith)
chop-some (c ∷ []) pos = ([], refl)
chop-some (c ∷ d ∷ s) pos = let (t, e) = chop-some (d ∷ s) (omega arith) in (c ∷ t, rw e refl)

module _ (open_fd : ℕ → Option Bytes → Option ℕ) (failure : ℤ) where
  -- The array has room for one more item, and at most `n` items.
  abbrev HasRoom : ℕ → Run Loaded → Type 0
  HasRoom n (ok u) = (length u.items < u.capacity) × (length u.items ≤ n)
  HasRoom n fault = ⊥
  HasRoom n (exits code) = Unit
  HasRoom n out_of_fuel = ⊥

  HasRoom-bind :
      (m n : ℕ) (r : Run Loaded) (next : Loaded → Run Loaded)
      → HasRoom m r
      → ((u : Loaded) → length u.items < u.capacity → length u.items ≤ m → HasRoom n (next u))
      → HasRoom n (elim r [
        | ok u ↦ next u
        | fault ↦ fault
        | exits code ↦ exits code
        | out_of_fuel ↦ out_of_fuel
      ])
  HasRoom-bind m n (ok u) next h k = k u h.0 h.1
  HasRoom-bind m n fault next h k = h
  HasRoom-bind m n (exits code) next h k = tt
  HasRoom-bind m n out_of_fuel next h k = h

  load_row-HasRoom :
      (t : Loaded) (line : Bytes)
      → IsText line
      → 0 < length line
      → length t.items < t.capacity
      → suc (length t.items) < 2 ^ 30
      → HasRoom (suc (length t.items)) (load_row open_fd failure t line)
  unfolding load_row
  load_row-HasRoom t line a pos space few =
      let (row, e) = chop-some line pos in
      let full : leb t.capacity (length t.items) ≡ false = ground arith in
      rw (load_row, full, cstring_whole line a, e)
        (elim (Option-cases (open_fd (length t.items) (strsep (split_blank row).1).0)) [
          | inl miss ↦ rw miss tt
          | inr (fd, hit) ↦
              let it : Item = record { fildes = fd; key = (split_blank row).0 } in
              let (u, added, _, more, size) = add_item-ok t it space few in
              rw (hit, added) (more, omega (arith, size))
        ])

  Ends-map :
      (n : ℕ) (r : Run Loaded) (qsort : List Item → List Item)
      → HasRoom n r
      → Ends (elim r [
        | ok t ↦ ok (qsort t.items)
        | fault ↦ fault
        | exits code ↦ exits code
        | out_of_fuel ↦ out_of_fuel
      ])
  Ends-map n (ok u) qsort h = tt
  Ends-map n fault qsort h = h
  Ends-map n (exits code) qsort h = tt
  Ends-map n out_of_fuel qsort h = h

  load_rows-Ends :
      (fuel max_keylen : ℕ) (t : Loaded) (s : Bytes)
      → IsText s
      → 1 < max_keylen
      → length t.items < t.capacity
      → length s < fuel
      → length t.items + length s < 2 ^ 30
      → HasRoom (2 ^ 30) (load_rows open_fd failure fuel max_keylen t s)
  unfolding load_rows
  load_rows-Ends zero max_keylen t s a two space enough few = absurd (omega arith)
  load_rows-Ends (suc n) max_keylen t s a two space enough few =
      elim (Option-cases (fgets (max_keylen - 1) s)) [
        | inl e ↦ rw (load_rows, e) (space, omega arith)
        | inr ((line, rest), e) ↦
            let (text, text', pos) : Good (some (line, rest)) =
              rw e at (fgets-IsText (max_keylen - 1) s (omega arith) a) in
            let less = fgets-lt (max_keylen - 1) s line rest (omega arith) e in
            rw (load_rows, e)
              (HasRoom-bind (suc (length t.items)) (2 ^ 30) (load_row open_fd failure t line)
                (λ u. load_rows open_fd failure n max_keylen u rest)
                (load_row-HasRoom t line text pos space (omega arith))
                (λ u room size.
                  load_rows-Ends n max_keylen u rest text' two room (omega arith)
                    (omega (arith, size, less, few))))
      ]

  table_init-Ends :
      (qsort : List Item → List Item) (max_keylen : ℕ) (file : Option Bytes)
      → IsTextFile file
      → HasSize file
      → 1 < max_keylen
      → Ends (table_init open_fd failure qsort max_keylen file)
  unfolding table_init
  table_init-Ends qsort max_keylen none a small two = tt
  table_init-Ends qsort max_keylen (some s) a small two =
      Ends-map (2 ^ 30)
        (load_rows open_fd failure (length s + 1) max_keylen (record { capacity = 16; items = [] })
          s)
        qsort
        (load_rows-Ends (length s + 1) max_keylen (record { capacity = 16; items = [] }) s a two
          (omega arith) (omega arith) (omega (arith, small)))

-- On any list file of less than 2^30 bytes without NUL bytes, with any answers of `open(2)`, `simplecache_init` and
-- `content_init` write no item beyond the array, double no `int` beyond its range, cut no byte off an empty string, and end: with a
-- table or with `exit`.
pub init-Ends :
    (open_fd : ℕ → Option Bytes → Option ℕ) (qsort : List Item → List Item) (file : Option Bytes)
    → IsTextFile file
    → HasSize file
    → Ends (simplecache_init open_fd qsort file) × Ends (content_init open_fd qsort file)
unfolding simplecache_init content_init
init-Ends open_fd qsort file a small = (
  table_init-Ends open_fd cache_failure qsort max_keylen_simplecache file a small (omega arith),
  table_init-Ends open_fd exit_failure qsort max_keylen_content file a small (omega arith),
)
