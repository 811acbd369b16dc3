-- ===== src/Table.antt =====
-- cache/simplecache.c, and gflib/content.c, which is the same code with other constants: a static
-- table of keys and open files, read from a list file, sorted, and searched by bisection.
-- `open(2)` and `qsort(3)` are parameters. `open_fd i path` is the answer to the call for row `i`
-- (`none` for -1). `malloc` and `realloc` are taken to succeed, as the code does.
mod Array
pub mod Search
pub mod Load
pub mod Lookup
pub mod Safe
pub mod LastLine
mod Examples
use Prim.Native.Nat.{Ordering}
use cache_server.Base.{
  ℕ, zero, suc, ◌+◌, ◌-◌, ◌*◌, ◌/◌, ◌^◌, Bool, true, false, Option, none, some, List, [], ◌∷◌, ◌++◌,
  ◌==◌, leb, ltb, if◌then◌else◌, length, get_elem?, map,
}
use cache_server.Base.Int.{ℤ, pos, negsuc}
use cache_server.Text.{Bytes, strcmp, cstring, fgets, strsep, split_blank, chop}

-- `item_t`
pub record Item : Type 0 where
  pub fildes : ℕ
  pub key : Bytes

-- A normal result, a memory error, the end of the process, or not enough fuel.
pub data Run (A : Type 0) : Type 0 where
  ok : A → Run A
  fault : Run A
  exits : ℤ → Run A
  out_of_fuel : Run A

abbrev pub max_keylen_simplecache : ℕ
max_keylen_simplecache = 1024

abbrev pub max_keylen_content : ℕ
max_keylen_content = 256

-- `CACHE_FAILURE` and `EXIT_FAILURE`
abbrev pub cache_failure : ℤ
cache_failure = negsuc 0

abbrev pub exit_failure : ℤ
exit_failure = pos 1

-- The statics, with the number of items that the array has room for. `capacity` and `nitems` are of type
-- `int`; the last item sits below `capacity`, so `nitems` does not overflow before `capacity` does.
pub record Loaded : Type 0 where
  pub capacity : ℕ
  pub items : List Item

-- `_itemcmp`
pub itemcmp : Item → Item → Ordering
itemcmp a b = strcmp a.key b.key

-- `if(++nitems == capacity)`: an `int` that is doubled beyond its range is a fault.
unfoldable pub add_item : Loaded → Item → Run Loaded
add_item t it =
    if (length t.items + 1) == t.capacity
    then (if ltb (t.capacity * 2) (2 ^ 31)
        then ok (record { capacity = t.capacity * 2; items = t.items ++ it ∷ [] })
        else fault)
    else ok (record { capacity = t.capacity; items = t.items ++ it ∷ [] })

module _ (open_fd : ℕ → Option Bytes → Option ℕ) (failure : ℤ) where
  -- The body of the loop for one line, with the write to `items[nitems]` in bounds or not.
  pub load_row : Loaded → Bytes → Run Loaded
  unfolding add_item
  load_row t line =
      let nitems = length t.items in
      if leb t.capacity nitems then fault else elim (chop (cstring line)) [
        | none ↦ fault
        | some row ↦
            let (key, rest) = split_blank row in
            elim (open_fd nitems (strsep rest).0) [
              | none ↦ exits failure
              | some fd ↦ add_item t (record { fildes = fd; key = key })
            ]
      ]

  -- `while(fgets(items[nitems].key, MAX_KEYLEN, filelist))`
  pub load_rows : (fuel max_keylen : ℕ) → Loaded → Bytes → Run Loaded
  load_rows zero max_keylen t s = out_of_fuel
  load_rows (suc fuel) max_keylen t s = elim (fgets (max_keylen - 1) s) [
    | none ↦ ok t
    | some (line, rest) ↦ elim (load_row t line) [
      | ok u ↦ load_rows fuel max_keylen u rest
      | fault ↦ fault
      | exits code ↦ exits code
      | out_of_fuel ↦ out_of_fuel
    ]
  ]

  -- `filelist` is what `fopen` finds, and `qsort` sorts by `itemcmp`.
  pub table_init : (qsort : List Item → List Item) → ℕ → Option Bytes → Run (List Item)
  unfolding load_rows
  table_init qsort max_keylen none = exits failure
  table_init qsort max_keylen (some s) =
      elim (load_rows (length s + 1) max_keylen (record { capacity = 16; items = [] }) s) [
        | ok t ↦ ok (qsort t.items)
        | fault ↦ fault
        | exits code ↦ exits code
        | out_of_fuel ↦ out_of_fuel
      ]

-- `simplecache_init` and `content_init`
pub simplecache_init :
    (ℕ → Option Bytes → Option ℕ) → (List Item → List Item) → Option Bytes → Run (List Item)
simplecache_init open_fd qsort = table_init open_fd cache_failure qsort max_keylen_simplecache

pub content_init :
    (ℕ → Option Bytes → Option ℕ) → (List Item → List Item) → Option Bytes → Run (List Item)
content_init open_fd qsort = table_init open_fd exit_failure qsort max_keylen_content

-- `mid - 1`
abbrev pub before : ℕ → ℤ
before zero = negsuc 0
before (suc n) = pos n

-- The loop over `lo` and `hi`: the descriptor found, if any.
pub search_loop : ℕ → List Item → Bytes → ℕ → ℤ → Run (Option ℕ)
search_loop zero items key lo hi = out_of_fuel
search_loop (suc fuel) items key lo (negsuc n) = ok none
search_loop (suc fuel) items key lo (pos hi) =
    let mid = lo + (hi - lo) / 2 in
    elim (leb lo hi) [
      | false ↦ ok none
      | true ↦ elim (get_elem? items mid) [
        | none ↦ fault
        | some item ↦ elim (strcmp key item.key) [
          | Ordering.lt ↦ search_loop fuel items key lo (before mid)
          | Ordering.gt ↦ search_loop fuel items key (mid + 1) (pos hi)
          | Ordering.eq ↦ ok (some item.fildes)
        ]
      ]
    ]

-- `lseek(fd, 0, SEEK_SET)` on a hit; `offsets` gives the file offset of each descriptor.
abbrev pub rewind : Option ℕ → (ℕ → ℕ) → ℕ → ℕ
rewind none offsets fd = offsets fd
rewind (some hit) offsets fd = if fd == hit then 0 else offsets fd

-- `simplecache_get`: the result (`none` for -1) and the offsets after it.
pub simplecache_get : List Item → Bytes → (ℕ → ℕ) → Run (Option ℕ × (ℕ → ℕ))
unfolding search_loop
simplecache_get items key offsets =
    elim (search_loop (length items + 1) items key 0 (before (length items))) [
      | ok found ↦ ok (found, rewind found offsets)
      | fault ↦ fault
      | exits code ↦ exits code
      | out_of_fuel ↦ out_of_fuel
    ]

-- `content_get`
pub content_get : List Item → Bytes → (ℕ → ℕ) → Run (Option ℕ × (ℕ → ℕ))
unfolding search_loop
content_get items key offsets =
    elim (search_loop (length items + 1) items key 0 (before (length items))) [
      | ok found ↦ ok (found, rewind found offsets)
      | fault ↦ fault
      | exits code ↦ exits code
      | out_of_fuel ↦ out_of_fuel
    ]

-- `simplecache_destroy` and `content_destroy`: the descriptors closed, in order.
pub simplecache_destroy : List Item → List ℕ
simplecache_destroy [] = []
simplecache_destroy (i ∷ items) = i.fildes ∷ simplecache_destroy items

pub content_destroy : List Item → List ℕ
content_destroy [] = []
content_destroy (i ∷ items) = i.fildes ∷ content_destroy items
