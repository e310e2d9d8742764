-- ===== src/Trees/Compared.antt =====
-- The comparison of two strings.
use icecast_server.Prelude.{◌≡◌, refl, [], ◌∷◌, arith, Bytes}
use Prim.Native.Nat.{Ordering}
use icecast_server.Trees.{str_compare}

-- `strcmp` is 0 at equal strings and nowhere else.
pub str_compare_refl : (a : Bytes) → str_compare a a ≡ Ordering.eq
unfolding str_compare
str_compare_refl [] = refl
str_compare_refl (x ∷ a) = ground (arith, str_compare_refl a)

pub str_compare-eq : (a b : Bytes) → str_compare a b ≡ Ordering.eq → a ≡ b
unfolding str_compare
str_compare-eq [] [] h = refl
str_compare-eq [] (y ∷ b) h = cc
str_compare-eq (x ∷ a) [] h = cc
str_compare-eq (x ∷ a) (y ∷ b) h = ground (arith, str_compare-eq a b)

-- The three outcomes of a comparison.
pub by_order {ℓ κ} :
    {A : Type ℓ} (P : A → Type κ) (a b : Bytes) (x y z : A)
    → (str_compare a b ≡ Ordering.lt → P x)
    → (str_compare a b ≡ Ordering.gt → P y)
    → (a ≡ b → P z)
    → P (elim (str_compare a b) [ Ordering.lt ↦ x | Ordering.gt ↦ y | Ordering.eq ↦ z ])
by_order P a b x y z lt gt eq = chosen (str_compare a b) refl
  where
    chosen :
        (o : Ordering)
        → str_compare a b ≡ o
        → P (elim o [ Ordering.lt ↦ x | Ordering.gt ↦ y | Ordering.eq ↦ z ])
    chosen Ordering.lt e = lt e
    chosen Ordering.gt e = gt e
    chosen Ordering.eq e = eq (str_compare-eq a b e)
