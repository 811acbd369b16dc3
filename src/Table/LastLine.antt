-- ===== src/Table/LastLine.antt =====
-- cache/simplecache.c and gflib/content.c: a list file whose last line has no newline.
use cache_server.Base.{
  ℕ, zero, suc, ◌+◌, ◌-◌, ◌≤◌, ◌<◌, ◌≡◌, ◌≢◌, refl, sym, ap, ◌∙◌, Option, some, List, [], ◌∷◌, ◌++◌,
  arith, append_assoc, length, length-append,
}
use cache_server.Base.Int.{ℤ}
use cache_server.Text.{Bytes, fgets, cstring}
use cache_server.Text.Tokens.{
  All, IsPlain, IsInline, All-append, fgets_line-end, cstring_whole, chop-snoc,
}
use cache_server.Table.{
  Item, Run, ok, fault, exits, out_of_fuel, Loaded, load_row, load_rows, table_init,
  simplecache_init, content_init, max_keylen_simplecache, max_keylen_content, cache_failure,
  exit_failure,
}
use cache_server.Table.Load.{
  Row, body, list_file, WellFormed, body-IsInline, inline-nonzero, fgets-newline, WellFormed-le,
}

-- The path of the last row with one more byte.
abbrev pub longer : Row → ℕ → Row
longer r c = record { key = r.key; path = r.path ++ c ∷ [] }

longer-body : (r : Row) (c : ℕ) → body (longer r c) ≡ body r ++ c ∷ []
longer-body r c = sym (append_assoc r.key (b' ' ∷ r.path) (c ∷ []))

list_file-snoc :
    (rows : List Row) (r : Row)
    → list_file (rows ++ r ∷ []) ≡ list_file rows ++ (body r ++ b'\n' ∷ [])
list_file-snoc [] r = refl
list_file-snoc (q ∷ rows) r =
    ap (λ s. body q ++ b'\n' ∷ s) (list_file-snoc rows r)
    ∙ sym (append_assoc (body q) (b'\n' ∷ list_file rows) (body r ++ b'\n' ∷ []))

inline-text : (s : Bytes) → All IsInline s → All (λ c. c ≢ 0) s
inline-text [] a = tt
inline-text (c ∷ s) ((z, n), a) = (z, inline-text s a)

fgets-end :
    (room : ℕ) (s : Bytes)
    → All IsInline s
    → length s ≤ room
    → 0 < length s
    → fgets room s ≡ some (s, [])
unfolding fgets
fgets-end room [] a le pos = absurd (omega arith)
fgets-end room (c ∷ s) a le pos = ap some (fgets_line-end room (c ∷ s) a le)

module _ (open_fd : ℕ → Option Bytes → Option ℕ) (failure : ℤ) where
  load_row-chopped :
      (t : Loaded) (r : Row) (c : ℕ)
      → All IsPlain r.key
      → All IsPlain r.path
      → c ≢ 0
      → load_row open_fd failure t (body r ++ c ∷ [])
        ≡ load_row open_fd failure t (body r ++ b'\n' ∷ [])
  unfolding load_row
  load_row-chopped t r c k p z =
      let text = inline-text (body r) (body-IsInline r k p) in
      let whole : cstring (body r ++ b'\n' ∷ []) ≡ body r ++ b'\n' ∷ [] =
        cstring_whole (body r ++ b'\n' ∷ []) (inline-nonzero (body r) (body-IsInline r k p)) in
      let whole' : cstring (body r ++ c ∷ []) ≡ body r ++ c ∷ [] =
        cstring_whole (body r ++ c ∷ []) (All-append (λ d. d ≢ 0) (body r) (c ∷ []) text (z, tt)) in
      rw (load_row, whole, whole', chop-snoc (body r) c, chop-snoc (body r) b'\n') refl

  bind-same :
      (r : Run Loaded) (f g : Loaded → Run Loaded)
      → ((u : Loaded) → f u ≡ g u)
      → elim r as (λ x. Run Loaded) [
        | ok u ↦ f u
        | fault ↦ fault
        | exits code ↦ exits code
        | out_of_fuel ↦ out_of_fuel
      ]
        ≡ elim r as (λ x. Run Loaded) [
          | ok u ↦ g u
          | fault ↦ fault
          | exits code ↦ exits code
          | out_of_fuel ↦ out_of_fuel
        ]
  bind-same (ok u) f g h = h u
  bind-same fault f g h = refl
  bind-same (exits code) f g h = refl
  bind-same out_of_fuel f g h = refl

  -- Two files with the same first line.
  load_rows-same :
      (fuel max_keylen : ℕ) (t : Loaded) (s s' line rest rest' : Bytes)
      → fgets (max_keylen - 1) s ≡ some (line, rest)
      → fgets (max_keylen - 1) s' ≡ some (line, rest')
      → ((u : Loaded)
          → load_rows open_fd failure fuel max_keylen u rest
            ≡ load_rows open_fd failure fuel max_keylen u rest')
      → load_rows open_fd failure (suc fuel) max_keylen t s
        ≡ load_rows open_fd failure (suc fuel) max_keylen t s'
  unfolding load_rows
  load_rows-same fuel max_keylen t s s' line rest rest' read read' h =
      rw (load_rows, read, read')
        (bind-same (load_row open_fd failure t line)
          (λ u. load_rows open_fd failure fuel max_keylen u rest)
          (λ u. load_rows open_fd failure fuel max_keylen u rest') h)

  load_rows-chopped :
      (fuel max_keylen : ℕ) (t : Loaded) (rows : List Row) (r : Row) (c : ℕ)
      → WellFormed max_keylen (rows ++ r ∷ [])
      → c ≢ 0
      → c ≢ b'\n'
      → load_rows open_fd failure fuel max_keylen t (list_file rows ++ (body r ++ c ∷ []))
        ≡ load_rows open_fd failure fuel max_keylen t (list_file rows ++ (body r ++ b'\n' ∷ []))
  unfolding load_rows
  load_rows-chopped zero max_keylen t rows r c wf z n = refl
  load_rows-chopped (suc fuel) max_keylen t [] r c (k, p, fits, wf) z n =
      let inline = body-IsInline r k p in
      let row = load_row-chopped t r c k p z in
      let read = fgets-newline (max_keylen - 1) (body r) [] inline (omega arith) in
      let read' =
        fgets-end (max_keylen - 1) (body r ++ c ∷ [])
          (All-append IsInline (body r) (c ∷ []) inline ((z, n), tt))
          (omega (arith, length-append (body r) (c ∷ [])))
          (omega (arith, length-append (body r) (c ∷ []))) in
      rw (load_rows, read, read', row) refl
  load_rows-chopped (suc fuel) max_keylen t (q ∷ rows) r c (k, p, fits, wf) z n =
      let inline = body-IsInline q k p in
      let read =
        fgets-newline (max_keylen - 1) (body q) (list_file rows ++ (body r ++ b'\n' ∷ [])) inline
          (omega arith) in
      let read' =
        fgets-newline (max_keylen - 1) (body q) (list_file rows ++ (body r ++ c ∷ [])) inline
          (omega arith) in
      rw
        (
          append_assoc (body q) (b'\n' ∷ list_file rows) (body r ++ c ∷ []),
          append_assoc (body q) (b'\n' ∷ list_file rows) (body r ++ b'\n' ∷ []),
        )
        (load_rows-same fuel max_keylen t (body q ++ b'\n' ∷ (list_file rows ++ (body r ++ c ∷ [])))
          (body q ++ b'\n' ∷ (list_file rows ++ (body r ++ b'\n' ∷ []))) (body q ++ b'\n' ∷ [])
          (list_file rows ++ (body r ++ c ∷ [])) (list_file rows ++ (body r ++ b'\n' ∷ [])) read'
          read (λ u. load_rows-chopped fuel max_keylen u rows r c wf z n))

  table_init-chopped :
      (qsort : List Item → List Item) (max_keylen : ℕ) (rows : List Row) (r : Row) (c : ℕ)
      → WellFormed max_keylen (rows ++ r ∷ [])
      → c ≢ 0
      → c ≢ b'\n'
      → table_init open_fd failure qsort max_keylen (some (list_file rows ++ body (longer r c)))
        ≡ table_init open_fd failure qsort max_keylen (some (list_file (rows ++ r ∷ [])))
  unfolding table_init
  table_init-chopped qsort max_keylen rows r c wf z n =
      let lens : length (list_file rows ++ (body r ++ c ∷ []))
          ≡ length (list_file rows ++ (body r ++ b'\n' ∷ [])) =
        omega (
          arith,
          length-append (list_file rows) (body r ++ c ∷ []),
          length-append (list_file rows) (body r ++ b'\n' ∷ []),
          length-append (body r) (c ∷ []),
          length-append (body r) (b'\n' ∷ []),
        ) in
      rw
        (
          table_init,
          longer-body r c,
          list_file-snoc rows r,
          lens,
          load_rows-chopped (length (list_file rows ++ (body r ++ b'\n' ∷ [])) + 1) max_keylen
              (record { capacity = 16; items = [] }) rows r c wf z n,
        )
        refl

-- Without a newline at its end, a list file is loaded as if the last path had no last byte: the
-- code takes that byte out for the newline.
pub last_byte_lost :
    (open_fd : ℕ → Option Bytes → Option ℕ) (qsort : List Item → List Item) (rows : List Row)
    (r : Row) (c : ℕ)
    → WellFormed max_keylen_content (rows ++ r ∷ [])
    → c ≢ 0
    → c ≢ b'\n'
    → (simplecache_init open_fd qsort (some (list_file rows ++ body (longer r c)))
        ≡ simplecache_init open_fd qsort (some (list_file (rows ++ r ∷ []))))
      × (content_init open_fd qsort (some (list_file rows ++ body (longer r c)))
          ≡ content_init open_fd qsort (some (list_file (rows ++ r ∷ []))))
unfolding simplecache_init content_init
last_byte_lost open_fd qsort rows r c wf z n = (
  table_init-chopped open_fd cache_failure qsort max_keylen_simplecache rows r c
      (WellFormed-le max_keylen_content max_keylen_simplecache (rows ++ r ∷ []) (omega arith) wf) z
      n,
  table_init-chopped open_fd exit_failure qsort max_keylen_content rows r c wf z n,
)
