-- ===== src/Table/Search.antt =====
-- cache/simplecache.c and gflib/content.c: `simplecache_get` and `content_get` on a sorted table.
use Prim.Native.Nat.{Ordering}
use cache_server.Base.{
  ℕ, zero, suc, ◌+◌, ◌-◌, ◌/◌, ◌≤◌, ◌<◌, ◌≡◌, ◌≢◌, refl, sym, ap, Option, none, some, List, arith,
  length, get_elem?, inl, inr, ◌⊎◌, Bool-cases, leb, get_elem?-lt, get_elem?-some,
}
use native.Mathlib.Decide.{dec_lt}
use cache_server.Base.Int.{ℤ, pos, negsuc}
use cache_server.Text.{Bytes, strcmp}
use cache_server.Text.Order.{strcmp_refl, strcmp_eq, lt_trans, gt_trans}
use cache_server.Table.{
  Item, Run, ok, fault, exits, out_of_fuel, itemcmp, before, search_loop, rewind, simplecache_get,
  content_get,
}

-- Sorted by `itemcmp`, as `qsort` leaves the items.
abbrev pub IsSorted : List Item → Type 0
IsSorted items =
    (i j : ℕ) (a b : Item)
    → i ≤ j
    → get_elem? items i ≡ some a
    → get_elem? items j ≡ some b
    → itemcmp a b ≢ Ordering.gt

-- A descriptor stored under the key, or no row has the key.
abbrev pub Finds : List Item → Bytes → Option ℕ → Type 0
Finds items key (some fd) =
    (i : ℕ) × (it : Item) × (get_elem? items i ≡ some it) × (it.key ≡ key) × (it.fildes ≡ fd)
Finds items key none = (i : ℕ) (it : Item) → get_elem? items i ≡ some it → it.key ≢ key

abbrev pub Returns : {A : Type 0} → Run A → (A → Type 0) → Type 0
Returns (ok a) P = P a
Returns _ P = ⊥

Ordering-cases : (o : Ordering) → (o ≡ Ordering.lt) ⊎ (o ≡ Ordering.eq) ⊎ (o ≡ Ordering.gt)
Ordering-cases Ordering.lt = inl refl
Ordering-cases Ordering.eq = inr (inl refl)
Ordering-cases Ordering.gt = inr (inr refl)

-- `hi + 1`
abbrev upto : ℤ → ℕ
upto (pos h) = suc h
upto (negsuc n) = 0

upto-before : (n : ℕ) → upto (before n) ≡ n
upto-before zero = refl
upto-before (suc n) = refl

module _ (items : List Item) (key : Bytes) where
  -- The comment in the loop: the key is in `items[lo..hi]` or not present.
  record Inv (lo : ℕ) (hi : ℤ) : Type 0 where
    ordered : lo ≤ upto hi
    inside : upto hi ≤ length items
    below :
        (i : ℕ) (it : Item) → get_elem? items i ≡ some it → i < lo → strcmp key it.key ≡ Ordering.gt
    above :
        (i : ℕ) (it : Item)
        → get_elem? items i ≡ some it
        → upto hi ≤ i
        → strcmp key it.key ≡ Ordering.lt

  ne_of_gt : (it : Item) → strcmp key it.key ≡ Ordering.gt → it.key ≢ key
  ne_of_gt it h e = cc (h, strcmp_refl key, ap (strcmp key) e)

  ne_of_lt : (it : Item) → strcmp key it.key ≡ Ordering.lt → it.key ≢ key
  ne_of_lt it h e = cc (h, strcmp_refl key, ap (strcmp key) e)

  -- An empty range means that the key is absent.
  none_left : (lo : ℕ) (hi : ℤ) → Inv lo hi → upto hi ≤ lo → Finds items key none
  none_left lo hi inv empty i it at = elim (dec_lt i lo) [
    | yes lt ↦ ne_of_gt it (inv.below i it at lt)
    | no ge ↦ ne_of_lt it (inv.above i it at (omega arith))
  ]

  module _ (sorted : IsSorted items) where
    left_half :
        (lo : ℕ) (hi : ℤ) (mid : ℕ) (m : Item)
        → Inv lo hi
        → get_elem? items mid ≡ some m
        → strcmp key m.key ≡ Ordering.lt
        → lo ≤ mid
        → Inv lo (before mid)
    unfolding itemcmp
    left_half lo hi mid m inv at c le = record {
      ordered = rw (upto-before mid) le;
      inside = rw (upto-before mid) (omega (arith, get_elem?-lt items mid m at));
      below = inv.below;
      above = λ i it at' h.
          lt_trans key m.key it.key c (sorted mid i m it (rw (upto-before mid) at h) at at');
    }

    right_half :
        (lo : ℕ) (hi : ℤ) (mid : ℕ) (m : Item)
        → Inv lo hi
        → get_elem? items mid ≡ some m
        → strcmp key m.key ≡ Ordering.gt
        → mid + 1 ≤ upto hi
        → Inv (mid + 1) hi
    unfolding itemcmp
    right_half lo hi mid m inv at c le = record {
      ordered = le;
      inside = inv.inside;
      below = λ i it at' h. gt_trans key m.key it.key c (sorted i mid it m (omega arith) at' at);
      above = inv.above;
    }

    search-Finds :
        (fuel lo : ℕ) (hi : ℤ)
        → Inv lo hi
        → upto hi < lo + fuel
        → Returns (search_loop fuel items key lo hi) (Finds items key)
    unfolding search_loop
    search-Finds zero lo hi inv lt = absurd (omega (arith, inv.ordered))
    search-Finds (suc fuel) lo (negsuc n) inv lt = none_left lo (negsuc n) inv (omega arith)
    search-Finds (suc fuel) lo (pos hi) inv lt = elim (Bool-cases (leb lo hi)) [
      | inr e ↦ rw (e, search_loop) (none_left lo (pos hi) inv (ground arith))
      | inl e ↦
          let mid = lo + (hi - lo) / 2 in
          let le : lo ≤ hi = ground arith in
          let (m, at) = get_elem?-some items mid (omega (arith, inv.inside)) in
          rw (e, search_loop)
            (rw at (elim (Ordering-cases (strcmp key m.key)) [
              | inl c ↦ rw c (
                  search-Finds fuel lo (before mid)
                    (left_half lo (pos hi) mid m inv at c (omega arith))
                    (rw (upto-before mid) (omega arith)))
              | inr (inl c) ↦ rw c (mid, m, at, sym (strcmp_eq key m.key c), refl)
              | inr (inr c) ↦ rw c (
                  search-Finds fuel (mid + 1) (pos hi)
                    (right_half lo (pos hi) mid m inv at c (omega arith)) (omega arith))
            ]))
    ]

    start-Inv : Inv 0 (before (length items))
    start-Inv = record {
      ordered = omega arith;
      inside = rw (upto-before (length items)) (omega arith);
      below = λ i it at h. absurd (omega arith);
      above = λ i it at h.
          absurd (omega (arith, rw (upto-before (length items)) at h, get_elem?-lt items i it at));
    }

    loop-Finds :
        Returns
          (search_loop (length items + 1) items key 0 (before (length items)))
          (Finds items key)
    loop-Finds =
        search-Finds (length items + 1) 0 (before (length items)) start-Inv
          (rw (upto-before (length items)) (omega arith))

inversion : {A : Type 0} (r : Run A) (P : A → Type 0) → Returns r P → (a : A) × (r ≡ ok a) × P a
inversion (ok a) P h = (a, refl, h)
inversion fault P h = elim h [ ]
inversion (exits code) P h = elim h [ ]
inversion out_of_fuel P h = elim h [ ]

-- A descriptor that is found is at offset 0, and no other offset changes.
abbrev pub Rewound : Option ℕ → (ℕ → ℕ) → (ℕ → ℕ) → Type 0
Rewound none old new = (fd : ℕ) → new fd ≡ old fd
Rewound (some hit) old new = (new hit ≡ 0) × ((fd : ℕ) → fd ≢ hit → new fd ≡ old fd)

rewind-Rewound : (found : Option ℕ) (offsets : ℕ → ℕ) → Rewound found offsets (rewind found offsets)
rewind-Rewound none offsets = λ fd. refl
rewind-Rewound (some hit) offsets = (ground arith, λ fd ne. ground arith)

abbrev pub Answers : List Item → Bytes → (ℕ → ℕ) → Option ℕ × (ℕ → ℕ) → Type 0
Answers items key offsets (found, offsets') = Finds items key found × Rewound found offsets offsets'

-- On a sorted table `simplecache_get` and `content_get` read no item out of bounds and end within
-- `nitems + 1` rounds. They return a descriptor stored under the key, with its offset set to 0, or
-- -1 if no row has the key; no other offset changes.
pub get-Answers :
    (items : List Item) (key : Bytes) (offsets : ℕ → ℕ)
    → IsSorted items
    → Returns (simplecache_get items key offsets) (Answers items key offsets)
      × Returns (content_get items key offsets) (Answers items key offsets)
unfolding simplecache_get content_get
get-Answers items key offsets sorted =
    let (found, e, right) =
      inversion (search_loop (length items + 1) items key 0 (before (length items)))
        (Finds items key) (loop-Finds items key sorted) in
    let moved = rewind-Rewound found offsets in
    (rw (e, simplecache_get) (right, moved), rw (e, content_get) (right, moved))
