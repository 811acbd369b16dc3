-- ===== src/Table/Examples.antt =====
-- cache/simplecache.c: a list of two files, out of order, under keys `/b` and `/a`.
use Prim.Native.Nat.{Ordering}
use cache_server.Base.{
  ℕ, zero, suc, ◌≡◌, ◌≢◌, ◌≤◌, refl, arith, Option, none, some, List, [], ◌∷◌, ◌++◌, ◌+◌, get_elem?,
}
use cache_server.Text.{Bytes, codes, strcmp}
use cache_server.Table.{
  Item, ok, itemcmp, simplecache_init, content_init, simplecache_get, content_get,
}
use cache_server.Table.Search.{IsSorted, Returns, Answers}
use cache_server.Table.Load.{Row, WellFormed, list_file, body}
use cache_server.Table.Lookup.{SameItems, load-get}
use cache_server.Text.Tokens.{IsPlain}
use cache_server.Table.Safe.{Ends, init-Ends}
use cache_server.Table.LastLine.{longer, last_byte_lost}

-- Sorting by insertion.
abbrev insert : Item → List Item → List Item
insert x [] = x ∷ []
insert x (y ∷ ys) = elim (strcmp x.key y.key) [ Ordering.gt ↦ y ∷ insert x ys | _ ↦ x ∷ y ∷ ys ]

abbrev sort : List Item → List Item
sort [] = []
sort (x ∷ xs) = insert x (sort xs)

abbrev item_a : Item
item_a = record { fildes = 8; key = codes "/a" }

abbrev item_b : Item
item_b = record { fildes = 7; key = codes "/b" }

abbrev rows_ba : List Row
rows_ba =
    record { key = codes "/b"; path = codes "x" }
    ∷ record { key = codes "/a"; path = codes "y" }
    ∷ []

abbrev item_row : Row
item_row = record { key = codes "/a"; path = codes "y" }

-- Descriptors are given out from 7 on.
abbrev open_7 : ℕ → Option Bytes → Option ℕ
open_7 i none = none
open_7 i (some path) = some (7 + i)

itemcmp-ne :
    (x y a b : Item)
    → itemcmp x y ≢ Ordering.gt
    → some x ≡ some a
    → some y ≡ some b
    → itemcmp a b ≢ Ordering.gt
itemcmp-ne x y a b ne p q h = ne cc

items_ab-IsSorted : IsSorted (item_a ∷ item_b ∷ [])
unfolding strcmp itemcmp
items_ab-IsSorted zero zero a b le x y = itemcmp-ne item_a item_a a b (λ h. cc) x y
items_ab-IsSorted zero (suc zero) a b le x y = itemcmp-ne item_a item_b a b (λ h. cc) x y
items_ab-IsSorted (suc zero) zero a b le x y = absurd (omega arith)
items_ab-IsSorted (suc zero) (suc zero) a b le x y = itemcmp-ne item_b item_b a b (λ h. cc) x y
items_ab-IsSorted zero (suc (suc j)) a b le x y = cc
items_ab-IsSorted (suc zero) (suc (suc j)) a b le x y = cc
items_ab-IsSorted (suc (suc i)) j a b le x y = cc

sorted_ba : sort (item_b ∷ item_a ∷ []) ≡ item_a ∷ item_b ∷ []
unfolding strcmp
sorted_ba = refl

sort-SameItems : SameItems (sort (item_b ∷ item_a ∷ [])) (item_b ∷ item_a ∷ [])
sort-SameItems = rw sorted_ba (forth, back)
  where
    forth :
        (i : ℕ) (it : Item)
        → get_elem? (item_a ∷ item_b ∷ []) i ≡ some it
        → (j : ℕ) × (get_elem? (item_b ∷ item_a ∷ []) j ≡ some it)
    forth zero it at = (1, at)
    forth (suc zero) it at = (0, at)
    forth (suc (suc i)) it at = cc

    back :
        (i : ℕ) (it : Item)
        → get_elem? (item_b ∷ item_a ∷ []) i ≡ some it
        → (j : ℕ) × (get_elem? (item_a ∷ item_b ∷ []) j ≡ some it)
    back zero it at = (1, at)
    back (suc zero) it at = (0, at)
    back (suc (suc i)) it at = cc

items_ba-IsSorted : IsSorted (sort (item_b ∷ item_a ∷ []))
items_ba-IsSorted = rw sorted_ba items_ab-IsSorted

IsPlain-a : (c : ℕ) → 33 ≤ c → IsPlain c
IsPlain-a c le = ((λ e. omega arith), (λ e. omega arith), ground arith)

row_x-WellFormed :
    (k p : ℕ) (rows : List Row)
    → 33 ≤ k
    → 33 ≤ p
    → WellFormed 256 rows
    → WellFormed 256 (record { key = b'/' ∷ k ∷ []; path = p ∷ [] } ∷ rows)
row_x-WellFormed k p rows a b rest =
    ((IsPlain-a 47 (omega arith), (IsPlain-a k a, tt)), (IsPlain-a p b, tt), omega arith, rest)

rows_ba-WellFormed : WellFormed 256 rows_ba
rows_ba-WellFormed =
    row_x-WellFormed 98 120 (item_row ∷ []) (omega arith) (omega arith)
      (row_x-WellFormed 97 121 [] (omega arith) (omega arith) tt)

rows_baa-WellFormed : WellFormed 256 (rows_ba ++ item_row ∷ [])
rows_baa-WellFormed =
    row_x-WellFormed 98 120 (item_row ∷ item_row ∷ []) (omega arith) (omega arith) (
      row_x-WellFormed 97 121 (item_row ∷ []) (omega arith) (omega arith)
        (row_x-WellFormed 97 121 [] (omega arith) (omega arith) tt))

load-get_example :
    ((table : List Item) × (simplecache_init open_7 sort (some (list_file rows_ba)) ≡ ok table)
      × Returns
          (simplecache_get table (codes "/a") (λ fd. 5))
          (Answers (item_b ∷ item_a ∷ []) (codes "/a") (λ fd. 5)))
    × ((table : List Item) × (content_init open_7 sort (some (list_file rows_ba)) ≡ ok table)
        × Returns
            (content_get table (codes "/a") (λ fd. 5))
            (Answers (item_b ∷ item_a ∷ []) (codes "/a") (λ fd. 5)))
load-get_example =
    load-get open_7 sort rows_ba (item_b ∷ item_a ∷ []) (codes "/a") (λ fd. 5) rows_ba-WellFormed
      (refl, refl, (refl, refl, tt)) (omega arith) items_ba-IsSorted sort-SameItems

init-Ends_example :
    Ends (simplecache_init open_7 sort (some (codes "/b x")))
    × Ends (content_init open_7 sort (some (codes "/b x")))
init-Ends_example =
    init-Ends open_7 sort (some (codes "/b x"))
      (
        (λ e. omega (arith, e)),
        ((λ e. omega (arith, e)), ((λ e. omega (arith, e)), ((λ e. omega (arith, e)), tt))),
      )
      (omega arith)

last_byte_lost_example :
    (simplecache_init open_7 sort (some (list_file rows_ba ++ body (longer item_row 122)))
      ≡ simplecache_init open_7 sort (some (list_file (rows_ba ++ item_row ∷ []))))
    × (content_init open_7 sort (some (list_file rows_ba ++ body (longer item_row 122)))
        ≡ content_init open_7 sort (some (list_file (rows_ba ++ item_row ∷ []))))
last_byte_lost_example =
    last_byte_lost open_7 sort rows_ba item_row 122 rows_baa-WellFormed (λ e. omega (arith, e))
      (λ e. omega (arith, e))
