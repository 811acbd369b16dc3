-- ===== src/Table/Array.antt =====
-- cache/simplecache.c and gflib/content.c: the array grows in time.
use cache_server.Base.{
  suc, ◌+◌, ◌*◌, ◌<◌, ◌^◌, ◌≡◌, refl, true, [], ◌∷◌, ◌++◌, arith, ◌==◌, ltb, lt→ltb, length,
  length-append, Bool-cases, inl, inr, ==_iff,
}
use cache_server.Table.{Item, ok, Loaded, add_item}

-- With room for an item, and fewer than 2^30 items after it, there is room for one more.
pub add_item-ok :
    (t : Loaded) (it : Item)
    → length t.items < t.capacity
    → suc (length t.items) < 2 ^ 30
    → (u : Loaded) × (add_item t it ≡ ok u)
      × (u.items ≡ t.items ++ it ∷ [])
      × (length u.items < u.capacity)
      × (length u.items ≡ suc (length t.items))
unfolding add_item
add_item-ok t it space few =
    let grown : length (t.items ++ it ∷ []) ≡ suc (length t.items) =
      omega (arith, length-append t.items (it ∷ [])) in
    elim (Bool-cases ((length t.items + 1) == t.capacity)) [
      | inl full ↦
          let same = (==_iff (length t.items + 1) t.capacity).0 full in
          let fits : ltb (t.capacity * 2) (2 ^ 31) ≡ true = lt→ltb _ _ (omega (arith, same, few)) in
          (
            record { capacity = t.capacity * 2; items = t.items ++ it ∷ [] },
            rw (full, fits) refl,
            refl,
            omega (arith, grown, space),
            grown,
          )
      | inr more ↦ (
        record { capacity = t.capacity; items = t.items ++ it ∷ [] },
        rw more refl,
        refl,
        ground (arith, grown, space, more),
        grown,
      )
    ]
