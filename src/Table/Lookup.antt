-- ===== src/Table/Lookup.antt =====
-- cache/simplecache.c and gflib/content.c: what is loaded from a list file is found again.
use cache_server.Base.{ℕ, ◌^◌, ◌<◌, ◌≡◌, Option, none, some, List, get_elem?, length}
use cache_server.Text.{Bytes}
use cache_server.Table.{
  Item, Run, ok, fault, exits, out_of_fuel, simplecache_init, content_init, simplecache_get,
  content_get, max_keylen_content,
}
use cache_server.Table.Search.{IsSorted, Finds, Returns, Answers, get-Answers}
use cache_server.Table.Load.{Row, WellFormed, Opens, list_file, init-list_file}

-- What `qsort` promises: the same items, sorted.
abbrev pub SameItems : List Item → List Item → Type 0
SameItems xs ys =
    ((i : ℕ) (it : Item) → get_elem? xs i ≡ some it → (j : ℕ) × (get_elem? ys j ≡ some it))
    × ((i : ℕ) (it : Item) → get_elem? ys i ≡ some it → (j : ℕ) × (get_elem? xs j ≡ some it))

Finds-same :
    (xs ys : List Item) (key : Bytes) (found : Option ℕ)
    → SameItems xs ys
    → Finds xs key found
    → Finds ys key found
Finds-same xs ys key (some fd) same (i, it, at, k, f) =
    let (j, at') = same.0 i it at in (j, it, at', k, f)
Finds-same xs ys key none same absent = λ i it at. let (j, at') = same.1 i it at in absent j it at'

Answers-same :
    (xs ys : List Item) (key : Bytes) (offsets : ℕ → ℕ) (r : Run (Option ℕ × (ℕ → ℕ)))
    → SameItems xs ys
    → Returns r (Answers xs key offsets)
    → Returns r (Answers ys key offsets)
Answers-same xs ys key offsets (ok (found, moved)) same (finds, rewound) =
    (Finds-same xs ys key found same finds, rewound)
Answers-same xs ys key offsets fault same h = h
Answers-same xs ys key offsets (exits code) same h = h
Answers-same xs ys key offsets out_of_fuel same h = h

-- A list file of fewer than 2^30 well-formed rows whose paths all open is loaded, and in what is loaded
-- `simplecache_get` and `content_get` find for each key a descriptor opened for a row with that
-- key, rewound to offset 0, or -1 if there is no such row; no other offset changes.
pub load-get :
    (open_fd : ℕ → Option Bytes → Option ℕ) (qsort : List Item → List Item) (rows : List Row)
    (items : List Item) (key : Bytes) (offsets : ℕ → ℕ)
    → WellFormed max_keylen_content rows
    → Opens open_fd 0 rows items
    → length rows < 2 ^ 30
    → IsSorted (qsort items)
    → SameItems (qsort items) items
    → ((table : List Item) × (simplecache_init open_fd qsort (some (list_file rows)) ≡ ok table)
        × Returns (simplecache_get table key offsets) (Answers items key offsets))
      × ((table : List Item) × (content_init open_fd qsort (some (list_file rows)) ≡ ok table)
          × Returns (content_get table key offsets) (Answers items key offsets))
load-get open_fd qsort rows items key offsets wf opens few sorted same =
    let (simple, content) = init-list_file open_fd qsort rows items wf opens few in
    let (s, c) = get-Answers (qsort items) key offsets sorted in
    (
      (
        qsort items,
        simple,
        Answers-same (qsort items) items key offsets (simplecache_get (qsort items) key offsets)
            same s,
      ),
      (
        qsort items,
        content,
        Answers-same (qsort items) items key offsets (content_get (qsort items) key offsets) same c,
      ),
    )
