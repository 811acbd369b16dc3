-- ===== src/Table/Load.antt =====
-- cache/simplecache.c and gflib/content.c: what `simplecache_init` and `content_init` load.
use cache_server.Base.{
  ℕ, zero, suc, ◌+◌, ◌-◌, ◌≤◌, ◌<◌, ◌^◌, ◌≡◌, ◌≢◌, refl, sym, ap, ◌∙◌, false, Option, none, some,
  List, [], ◌∷◌, ◌++◌, append_assoc, append-nil, arith, leb, length, length-append,
}
use cache_server.Base.Int.{ℤ}
use cache_server.Text.{Bytes, fgets, cstring, split_blank, strsep}
use cache_server.Text.Tokens.{
  All, IsPlain, IsInline, All-append, All-IsInline, fgets_line-newline, cstring_whole, chop-snoc,
  split_blank-token, split_blank-end,
}
use cache_server.Table.Array.{add_item-ok}
use cache_server.Table.{
  add_item, Item, ok, Loaded, load_row, load_rows, table_init, simplecache_init, content_init,
  max_keylen_simplecache, max_keylen_content, cache_failure, exit_failure,
}

-- A row of the list file: a key and a path.
pub record Row : Type 0 where
  pub key : Bytes
  pub path : Bytes

-- `key path` and a newline.
abbrev pub body : Row → Bytes
body r = r.key ++ b' ' ∷ r.path

abbrev pub list_file : List Row → Bytes
list_file [] = []
list_file (r ∷ rows) = body r ++ b'\n' ∷ list_file rows

-- Keys and paths are tokens, and the lines fit the buffer.
abbrev pub WellFormed : ℕ → List Row → Type 0
WellFormed max_keylen [] = Unit
WellFormed max_keylen (r ∷ rows) =
    All IsPlain r.key
    × All IsPlain r.path
    × (length (body r) + 1 < max_keylen)
    × WellFormed max_keylen rows

-- The rows' files are opened, from index `i` on, and the items hold their descriptors.
abbrev pub Opens : (ℕ → Option Bytes → Option ℕ) → ℕ → List Row → List Item → Type 0
Opens open_fd i [] [] = Unit
Opens open_fd i [] (it ∷ items) = ⊥
Opens open_fd i (r ∷ rows) [] = ⊥
Opens open_fd i (r ∷ rows) (it ∷ items) =
    (it.key ≡ r.key) × (open_fd i (some r.path) ≡ some it.fildes) × Opens open_fd (suc i) rows items

pub body-IsInline : (r : Row) → All IsPlain r.key → All IsPlain r.path → All IsInline (body r)
body-IsInline r k p =
    All-append IsInline r.key (b' ' ∷ r.path) (All-IsInline r.key k)
      (((λ e. omega (arith, e)), (λ e. omega (arith, e))), All-IsInline r.path p)

pub inline-nonzero : (s : Bytes) → All IsInline s → All (λ c. c ≢ 0) (s ++ b'\n' ∷ [])
inline-nonzero [] a = ((λ e. omega (arith, e)), tt)
inline-nonzero (c ∷ s) ((z, n), a) = (z, inline-nonzero s a)

fgets_nil : (room : ℕ) → fgets room [] ≡ none
unfolding fgets
fgets_nil room = refl

-- A line that fits is read whole.
pub fgets-newline :
    (room : ℕ) (line rest : Bytes)
    → All IsInline line
    → length line < room
    → fgets room (line ++ b'\n' ∷ rest) ≡ some (line ++ b'\n' ∷ [], rest)
unfolding fgets
fgets-newline room [] rest a lt = ap some (fgets_line-newline room [] rest a lt)
fgets-newline room (c ∷ line) rest a lt = ap some (fgets_line-newline room (c ∷ line) rest a lt)

strsep_path : (s : Bytes) → All IsPlain s → (strsep (some s)).0 ≡ some s
unfolding strsep
strsep_path s p = rw (split_blank-end s p)

module _ (open_fd : ℕ → Option Bytes → Option ℕ) (failure : ℤ) where
  -- One well-formed line adds one item.
  load_row-body :
      (t : Loaded) (r : Row) (it : Item)
      → All IsPlain r.key
      → All IsPlain r.path
      → it.key ≡ r.key
      → open_fd (length t.items) (some r.path) ≡ some it.fildes
      → length t.items < t.capacity
      → suc (length t.items) < 2 ^ 30
      → (u : Loaded) × (load_row open_fd failure t (body r ++ b'\n' ∷ []) ≡ ok u)
        × (u.items ≡ t.items ++ it ∷ [])
        × (length u.items < u.capacity)
  unfolding load_row
  load_row-body t r it k p same opened space few =
      let whole : cstring (body r ++ b'\n' ∷ []) ≡ body r ++ b'\n' ∷ [] =
        cstring_whole (body r ++ b'\n' ∷ []) (inline-nonzero (body r) (body-IsInline r k p)) in
      let split : split_blank (body r) ≡ (r.key, some r.path) =
        split_blank-token r.key r.path b' ' k refl in
      let path : (strsep (some r.path)).0 ≡ some r.path = strsep_path r.path p in
      let full : leb t.capacity (length t.items) ≡ false = ground arith in
      let item : record { fildes = it.fildes; key = (split_blank (body r)).0 } ≡ it =
        λ i. record { fildes = it.fildes; key = (ap (λ q. q.0) split ∙ sym same) i } in
      let (u, added, all, more, _) = add_item-ok t it space few in
      (
        u,
        rw (full, whole, chop-snoc (body r) b'\n', split, path, opened)
            (ap (add_item t) item ∙ added),
        all,
        more,
      )

  load_rows-step :
      (fuel max_keylen : ℕ) (t u : Loaded) (s line rest : Bytes)
      → fgets (max_keylen - 1) s ≡ some (line, rest)
      → load_row open_fd failure t line ≡ ok u
      → load_rows open_fd failure (suc fuel) max_keylen t s
        ≡ load_rows open_fd failure fuel max_keylen u rest
  unfolding load_rows
  load_rows-step fuel max_keylen t u s line rest read step = rw (load_rows, read, step) refl

  -- The loop adds the rows' items in order, and stops at the end of the file.
  load_rows-list_file :
      (rows : List Row) (items : List Item) (max_keylen fuel : ℕ) (t : Loaded)
      → WellFormed max_keylen rows
      → Opens open_fd (length t.items) rows items
      → length t.items < t.capacity
      → length t.items + length rows < 2 ^ 30
      → length rows < fuel
      → (u : Loaded) × (load_rows open_fd failure fuel max_keylen t (list_file rows) ≡ ok u)
        × (u.items ≡ t.items ++ items)
  unfolding load_rows
  load_rows-list_file rows items max_keylen zero t wf opens space few lt = absurd (omega arith)
  load_rows-list_file [] [] max_keylen (suc n) t wf opens space few lt =
      (t, rw (load_rows, fgets_nil (max_keylen - 1)) refl, sym (append-nil t.items))
  load_rows-list_file [] (it ∷ items) max_keylen (suc n) t wf opens space few lt = elim opens [ ]
  load_rows-list_file (r ∷ rows) [] max_keylen (suc n) t wf opens space few lt = elim opens [ ]
  load_rows-list_file (r ∷ rows) (it ∷ items) max_keylen (suc n) t (k, p, fits, wf)
        (same, opened, opens) space few lt =
      let (u, step, u_items, u_space) =
        load_row-body t r it k p same opened space (omega (arith, few)) in
      let line =
        fgets-newline (max_keylen - 1) (body r) (list_file rows) (body-IsInline r k p)
          (omega arith) in
      let grown : length u.items ≡ suc (length t.items) =
        ground (arith, length-append t.items (it ∷ [])) in
      let (v, run, v_items) =
        load_rows-list_file rows items max_keylen n u wf (rw grown opens) u_space
          (omega (arith, grown, few)) (omega arith) in
      (
        v,
        load_rows-step n max_keylen t u (list_file (r ∷ rows)) (body r ++ b'\n' ∷ [])
              (list_file rows) line step
            ∙ run,
        v_items ∙ rw u_items (append_assoc t.items (it ∷ []) items),
      )

-- A file of rows has at least one byte for each.
length-list_file : (rows : List Row) → length rows ≤ length (list_file rows)
length-list_file [] = omega arith
length-list_file (r ∷ rows) =
    ground (arith, length-list_file rows, length-append (body r) (b'\n' ∷ list_file rows))

-- With any constants, a well-formed list file whose paths all open is loaded whole: the items are
-- the rows' keys with the descriptors of their files, sorted.
table_init-list_file :
    (open_fd : ℕ → Option Bytes → Option ℕ) (failure : ℤ) (qsort : List Item → List Item)
    (max_keylen : ℕ) (rows : List Row) (items : List Item)
    → WellFormed max_keylen rows
    → Opens open_fd 0 rows items
    → length rows < 2 ^ 30
    → table_init open_fd failure qsort max_keylen (some (list_file rows)) ≡ ok (qsort items)
unfolding table_init
table_init-list_file open_fd failure qsort max_keylen rows items wf opens few =
    let (u, run, same) =
      load_rows-list_file open_fd failure rows items max_keylen (length (list_file rows) + 1)
        (record { capacity = 16; items = [] }) wf opens (omega arith) (omega (arith, few))
        (ground (arith, length-list_file rows)) in
    rw (table_init, run) (ap (λ x. ok (qsort x)) same)

pub WellFormed-le : (m n : ℕ) (rows : List Row) → m ≤ n → WellFormed m rows → WellFormed n rows
WellFormed-le m n [] le wf = tt
WellFormed-le m n (r ∷ rows) le (k, p, fits, wf) = (k, p, omega arith, WellFormed-le m n rows le wf)

-- A list file of fewer than 2^30 well-formed rows whose lines fit the smaller buffer, and whose paths all open, is
-- loaded whole by `simplecache_init` and by `content_init`: the items are the rows' keys with the
-- descriptors of their files, sorted.
pub init-list_file :
    (open_fd : ℕ → Option Bytes → Option ℕ) (qsort : List Item → List Item) (rows : List Row)
    (items : List Item)
    → WellFormed max_keylen_content rows
    → Opens open_fd 0 rows items
    → length rows < 2 ^ 30
    → (simplecache_init open_fd qsort (some (list_file rows)) ≡ ok (qsort items))
      × (content_init open_fd qsort (some (list_file rows)) ≡ ok (qsort items))
unfolding simplecache_init content_init
init-list_file open_fd qsort rows items wf opens few = (
  table_init-list_file open_fd cache_failure qsort max_keylen_simplecache rows items
      (WellFormed-le max_keylen_content max_keylen_simplecache rows (omega arith) wf) opens few,
  table_init-list_file open_fd exit_failure qsort max_keylen_content rows items wf opens few,
)
