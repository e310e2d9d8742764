-- ===== src/Trees/Searched.antt =====
-- The search in a tree.
use icecast_server.Prelude.{◌≡◌, refl, sym, ap, ◌∙◌, ◌≢◌, ◌⊎◌, inl, inr, some, Bytes, subst}
use Prim.Native.Nat.{Ordering}
use icecast_server.Trees.{Tree, leaf, node, tree_search, replace, Compare, IsOrdered, str_compare}
use icecast_server.Trees.Compared.{by_order, str_compare_refl, str_compare-eq}

-- What is found has the name.
pub tree_search-key {ℓ} :
    {A : Type ℓ} (key : A → Bytes) (name : Bytes) (t : Tree A) (x : A)
    → tree_search key name t ≡ some x
    → key x ≡ name
unfolding tree_search
tree_search-key key name leaf x h = cc
tree_search-key key name (node left y right) x h =
    by_order (λ o. o ≡ some x → key x ≡ name) name (key y) (tree_search key name left)
      (tree_search key name right) (some y) (λ e. tree_search-key key name left x)
      (λ e. tree_search-key key name right x) (λ e k. cc) h

pub tree_search_lt {ℓ} :
    {A : Type ℓ} (key : A → Bytes) (name : Bytes) (l r : Tree A) (x : A)
    → str_compare name (key x) ≡ Ordering.lt
    → tree_search key name (node l x r) ≡ tree_search key name l
unfolding tree_search
tree_search_lt key name l r x e = rw (e, tree_search) refl

pub tree_search_gt {ℓ} :
    {A : Type ℓ} (key : A → Bytes) (name : Bytes) (l r : Tree A) (x : A)
    → str_compare name (key x) ≡ Ordering.gt
    → tree_search key name (node l x r) ≡ tree_search key name r
unfolding tree_search
tree_search_gt key name l r x e = rw (e, tree_search) refl

pub tree_search_eq {ℓ} :
    {A : Type ℓ} (key : A → Bytes) (name : Bytes) (l r : Tree A) (x : A)
    → name ≡ key x
    → tree_search key name (node l x r) ≡ some x
unfolding tree_search
tree_search_eq key name l r x e =
    let same : str_compare name (key x) ≡ Ordering.eq =
      ap (str_compare name) (sym e) ∙ str_compare_refl name in
    rw (same, tree_search) refl

-- The node that is replaced.
pub tree_search-replace-same {ℓ} :
    {A : Type ℓ} (key : A → Bytes) (y : A) (t : Tree A) (x : A)
    → tree_search key (key y) t ≡ some x
    → tree_search key (key y) (replace key y t) ≡ some y
unfolding tree_search replace
tree_search-replace-same key y leaf x h = cc
tree_search-replace-same key y (node l z r) x h =
    by_cases (tree_search-replace-same key y l x) (tree_search-replace-same key y r x)
      (str_compare (key y) (key z)) refl h
  where
    by_cases :
        (tree_search key (key y) l ≡ some x → tree_search key (key y) (replace key y l) ≡ some y)
        → (tree_search key (key y) r ≡ some x → tree_search key (key y) (replace key y r) ≡ some y)
        → (o : Ordering) → str_compare (key y) (key z) ≡ o
        → (elim o [
          | Ordering.lt ↦ tree_search key (key y) l
          | Ordering.gt ↦ tree_search key (key y) r
          | Ordering.eq ↦ some z
        ])
          ≡ some x
        → tree_search key (key y) (elim o [
          | Ordering.lt ↦ node (replace key y l) z r
          | Ordering.gt ↦ node l z (replace key y r)
          | Ordering.eq ↦ node l y r
        ])
          ≡ some y
    by_cases left right Ordering.lt e h =
        tree_search_lt key (key y) (replace key y l) r z e ∙ left h
    by_cases left right Ordering.gt e h =
        tree_search_gt key (key y) l (replace key y r) z e ∙ right h
    by_cases left right Ordering.eq e h = tree_search_eq key (key y) l r y refl

-- The other nodes.
pub tree_search-replace-other {ℓ} :
    {A : Type ℓ} (key : A → Bytes) (y : A) (name : Bytes) (t : Tree A)
    → key y ≢ name
    → tree_search key name (replace key y t) ≡ tree_search key name t
unfolding tree_search replace
tree_search-replace-other key y name leaf h = refl
tree_search-replace-other key y name (node l z r) h =
    by_cases (tree_search-replace-other key y name l h) (tree_search-replace-other key y name r h)
      (str_compare (key y) (key z)) refl (str_compare name (key z)) refl
  where
    by_cases :
        tree_search key name (replace key y l) ≡ tree_search key name l
        → tree_search key name (replace key y r) ≡ tree_search key name r
        → (o : Ordering) → str_compare (key y) (key z) ≡ o
        → (p : Ordering) → str_compare name (key z) ≡ p
        → tree_search key name (elim o [
          | Ordering.lt ↦ node (replace key y l) z r
          | Ordering.gt ↦ node l z (replace key y r)
          | Ordering.eq ↦ node l y r
        ])
          ≡ tree_search key name (node l z r)
    by_cases left right Ordering.lt e Ordering.lt k =
        tree_search_lt key name (replace key y l) r z k
        ∙ left
        ∙ sym (tree_search_lt key name l r z k)
    by_cases left right Ordering.lt e Ordering.gt k =
        tree_search_gt key name (replace key y l) r z k ∙ sym (tree_search_gt key name l r z k)
    by_cases left right Ordering.gt e Ordering.lt k =
        tree_search_lt key name l (replace key y r) z k ∙ sym (tree_search_lt key name l r z k)
    by_cases left right Ordering.gt e Ordering.gt k =
        tree_search_gt key name l (replace key y r) z k
        ∙ right
        ∙ sym (tree_search_gt key name l r z k)
    by_cases left right Ordering.lt e Ordering.eq k =
        let same = str_compare-eq name (key z) k in
        tree_search_eq key name (replace key y l) r z same
        ∙ sym (tree_search_eq key name l r z same)
    by_cases left right Ordering.gt e Ordering.eq k =
        let same = str_compare-eq name (key z) k in
        tree_search_eq key name l (replace key y r) z same
        ∙ sym (tree_search_eq key name l r z same)
    by_cases left right Ordering.eq e Ordering.eq k =
        absurd (h (str_compare-eq (key y) (key z) e ∙ sym (str_compare-eq name (key z) k)))
    by_cases left right Ordering.eq e Ordering.lt k =
        tree_search_lt key name l r y (ap (str_compare name) (str_compare-eq (key y) (key z) e) ∙ k)
        ∙ sym (tree_search_lt key name l r z k)
    by_cases left right Ordering.eq e Ordering.gt k =
        tree_search_gt key name l r y (ap (str_compare name) (str_compare-eq (key y) (key z) e) ∙ k)
        ∙ sym (tree_search_gt key name l r z k)

Compare-replace {ℓ} :
    {A : Type ℓ} (key : A → Bytes) (o : Ordering) (name : Bytes) (y : A) (t : Tree A)
    → Compare key o name t
    → Compare key o name (replace key y t)
unfolding replace
Compare-replace key o name y leaf c = c
Compare-replace key o name y (node l z r) c =
    by_order (λ t. Compare key o name t) (key y) (key z) _ _ _
      (λ e. (Compare-replace key o name y l c.0, c.1, c.2))
      (λ e. (c.0, c.1, Compare-replace key o name y r c.2))
      (λ e. (c.0, ap (λ k. str_compare k name) e ∙ c.1, c.2))

pub IsOrdered-replace {ℓ} :
    {A : Type ℓ} (key : A → Bytes) (y : A) (t : Tree A)
    → IsOrdered key t
    → IsOrdered key (replace key y t)
unfolding replace
IsOrdered-replace key y leaf o = o
IsOrdered-replace key y (node l z r) (a, b, c, d) =
    by_order (λ t. IsOrdered key t) (key y) (key z) _ _ _
      (λ e. (Compare-replace key Ordering.lt (key z) y l a, b, IsOrdered-replace key y l c, d))
      (λ e. (a, Compare-replace key Ordering.gt (key z) y r b, c, IsOrdered-replace key y r d))
      (λ e. (
        subst (λ k. Compare key Ordering.lt k l) (sym e) a,
        subst (λ k. Compare key Ordering.gt k r) (sym e) b,
        c,
        d,
      ))

abbrev pub InTree : {A : Type 0} → A → Tree A → Type 0
InTree x leaf = ⊥
InTree x (node l y r) = InTree x l ⊎ (x ≡ y) ⊎ InTree x r

-- An element compares as all of its tree do.
pub Compare-InTree :
    {A : Type 0} (key : A → Bytes) (o : Ordering) (name : Bytes) (t : Tree A) (x : A)
    → Compare key o name t
    → InTree x t
    → str_compare (key x) name ≡ o
Compare-InTree key o name leaf x c i = absurd i
Compare-InTree key o name (node l y r) x c (inl i) = Compare-InTree key o name l x c.0 i
Compare-InTree key o name (node l y r) x c (inr (inl e)) =
    ap (λ z. str_compare (key z) name) e ∙ c.1
Compare-InTree key o name (node l y r) x c (inr (inr i)) = Compare-InTree key o name r x c.2 i

-- What is found is an element.
pub tree_search-InTree :
    {A : Type 0} (key : A → Bytes) (name : Bytes) (t : Tree A) (x : A)
    → tree_search key name t ≡ some x
    → InTree x t
unfolding tree_search
tree_search-InTree key name leaf x h = cc
tree_search-InTree key name (node l y r) x h =
    by_order (λ o. o ≡ some x → InTree x (node l y r)) name (key y) _ _ _
      (λ e k. inl (tree_search-InTree key name l x k))
      (λ e k. inr (inr (tree_search-InTree key name r x k))) (λ e k. inr (inl cc)) h

pub finds :
    {A : Type 0} (key : A → Bytes) (t : Tree A) (x : A)
    → IsOrdered key t
    → InTree x t
    → tree_search key (key x) t ≡ some x
finds key leaf x o i = absurd i
finds key (node l y r) x o (inl i) =
    tree_search_lt key (key x) l r y (Compare-InTree key Ordering.lt (key y) l x o.0 i)
    ∙ finds key l x o.2 i
finds key (node l y r) x o (inr (inl e)) =
    tree_search_eq key (key x) l r y (ap key e) ∙ ap some (sym e)
finds key (node l y r) x o (inr (inr i)) =
    tree_search_gt key (key x) l r y (Compare-InTree key Ordering.gt (key y) r x o.1 i)
    ∙ finds key r x o.3 i
