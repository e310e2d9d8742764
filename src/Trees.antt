-- ===== src/Trees.antt =====
-- Search trees as the AVL library keeps them and as src/source.c and src/stats.c search them.
pub mod Compared
pub mod Searched
use icecast_server.Prelude.{
  str_eq, zero, suc, ◌+◌, ◌-◌, ◌*◌, ◌/◌, ◌%◌, ◌^◌, ◌≤◌, ◌<◌, ◌≡◌, refl, sym, ap, ◌∙◌, ◌≢◌, ◌↔◌, ◌⊎◌,
  inl, inr, Bool, true, false, not, ◌&&◌, ◌||◌, Option, none, some, List, [], ◌∷◌, ◌++◌, arith, ltb,
  leb, ◌==◌, if◌then◌else◌, Bool-cases, Bytes, ℕ,
}
use Prim.Native.Nat.{compare, Ordering}

-- The sign of `strcmp`, which compares unsigned bytes.
unfoldable pub str_compare : Bytes → Bytes → Ordering
str_compare [] [] = Ordering.eq
str_compare [] (y ∷ ys) = Ordering.lt
str_compare (x ∷ xs) [] = Ordering.gt
str_compare (x ∷ xs) (y ∷ ys) = elim (compare x y) [
  | Ordering.lt ↦ Ordering.lt
  | Ordering.eq ↦ str_compare xs ys
  | Ordering.gt ↦ Ordering.gt
]

pub data Tree {ℓ} (A : Type ℓ) : Type ℓ where
  leaf : Tree A
  node : Tree A → A → Tree A → Tree A

-- The search of `source_find_mount_raw`, `_find_node` and `_find_source`, by the text that the
-- elements are ordered by.
unfoldable pub tree_search {ℓ} : {A : Type ℓ} → (A → Bytes) → Bytes → Tree A → Option A
unfolding str_compare
tree_search key name leaf = none
tree_search key name (node left x right) = elim (str_compare name (key x)) [
  | Ordering.lt ↦ tree_search key name left
  | Ordering.gt ↦ tree_search key name right
  | Ordering.eq ↦ some x
]

-- What a change of the node that was found makes of the tree: the node with the same text is now `y`.
unfoldable pub replace {ℓ} : {A : Type ℓ} → (A → Bytes) → A → Tree A → Tree A
unfolding str_compare
replace key y leaf = leaf
replace key y (node left x right) = elim (str_compare (key y) (key x)) [
  | Ordering.lt ↦ node (replace key y left) x right
  | Ordering.gt ↦ node left x (replace key y right)
  | Ordering.eq ↦ node left y right
]

-- From `avl_get_first` along `avl_get_next`
unfoldable pub elements {ℓ} : {A : Type ℓ} → Tree A → List A
elements leaf = []
elements (node left x right) = elements left ++ x ∷ elements right

-- Every text of the tree compares so with a name.
abbrev pub Compare {ℓ} : {A : Type ℓ} → (A → Bytes) → Ordering → Bytes → Tree A → Type 0
Compare key o name leaf = Unit
Compare key o name (node left x right) =
    Compare key o name left × (str_compare (key x) name ≡ o) × Compare key o name right

-- The order of a search tree.
abbrev pub IsOrdered {ℓ} : {A : Type ℓ} → (A → Bytes) → Tree A → Type 0
IsOrdered key leaf = Unit
IsOrdered key (node left x right) =
    Compare key Ordering.lt (key x) left
    × Compare key Ordering.gt (key x) right
    × IsOrdered key left
    × IsOrdered key right

-- `avl_insert` of an element that is not in the tree, and `avl_delete` of one that is.
pub record Avl {ℓ} {A : Type ℓ} (key : A → Bytes) : Type ℓ where
  pub insert : A → Tree A → Tree A
  pub delete : A → Tree A → Tree A
  pub insert-IsOrdered :
      (x : A) (t : Tree A)
      → IsOrdered key t
      → tree_search key (key x) t ≡ none
      → IsOrdered key (insert x t)
  pub insert-tree_search :
      (x : A) (t : Tree A) (name : Bytes)
      → IsOrdered key t
      → tree_search key (key x) t ≡ none
      → tree_search key name (insert x t)
        ≡ (if str_eq (key x) name then some x else tree_search key name t)
  pub delete-IsOrdered :
      (x : A) (t : Tree A)
      → IsOrdered key t
      → tree_search key (key x) t ≡ some x
      → IsOrdered key (delete x t)
  pub delete-tree_search :
      (x : A) (t : Tree A) (name : Bytes)
      → IsOrdered key t
      → tree_search key (key x) t ≡ some x
      → tree_search key name (delete x t)
        ≡ (if str_eq (key x) name then none else tree_search key name t)
