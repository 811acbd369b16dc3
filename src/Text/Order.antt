-- ===== src/Text/Order.antt =====
-- `strcmp` is a total order on strings, and tells equal ones.
use Prim.Native.Nat.{Ordering}
use cache_server.Base.{◌≡◌, ◌≢◌, refl, [], ◌∷◌, arith}
use cache_server.Text.{Bytes, strcmp}

pub strcmp_refl : (a : Bytes) → strcmp a a ≡ Ordering.eq
unfolding strcmp
strcmp_refl [] = refl
strcmp_refl (x ∷ a) = ground (arith, strcmp_refl a)

pub strcmp_eq : (a b : Bytes) → strcmp a b ≡ Ordering.eq → a ≡ b
unfolding strcmp
strcmp_eq [] [] h = refl
strcmp_eq [] (y ∷ b) h = cc
strcmp_eq (x ∷ a) [] h = cc
strcmp_eq (x ∷ a) (y ∷ b) h = ground (arith, strcmp_eq a b)

-- A string below another is below all that are not below that one; so for above.
pub lt_trans :
    (a b c : Bytes) → strcmp a b ≡ Ordering.lt → strcmp b c ≢ Ordering.gt → strcmp a c ≡ Ordering.lt
unfolding strcmp
lt_trans [] [] c h k = cc
lt_trans [] (y ∷ b) [] h k = absurd (k refl)
lt_trans [] (y ∷ b) (z ∷ c) h k = refl
lt_trans (x ∷ a) [] c h k = cc
lt_trans (x ∷ a) (y ∷ b) [] h k = absurd (k refl)
lt_trans (x ∷ a) (y ∷ b) (z ∷ c) h k = ground (arith, lt_trans a b c)

pub gt_trans :
    (a b c : Bytes) → strcmp a b ≡ Ordering.gt → strcmp c b ≢ Ordering.gt → strcmp a c ≡ Ordering.gt
unfolding strcmp
gt_trans [] [] c h k = cc
gt_trans [] (y ∷ b) c h k = cc
gt_trans (x ∷ a) [] [] h k = refl
gt_trans (x ∷ a) [] (z ∷ c) h k = absurd (k refl)
gt_trans (x ∷ a) (y ∷ b) [] h k = refl
gt_trans (x ∷ a) (y ∷ b) (z ∷ c) h k = ground (arith, gt_trans a b c)
