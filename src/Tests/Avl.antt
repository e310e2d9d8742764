-- ===== src/Tests/Avl.antt =====
-- A search tree for the tests of `Stats`: plain insertion, and deletion that builds the tree again.
use icecast_server.Prelude.{
  str_eq, ◌≡◌, refl, sym, ap, ◌∙◌, ◌≢◌, ◌⊎◌, inl, inr, Bool, true, false, Option, none, some,
  if◌then◌else◌, Bool-cases, Bytes, str_eq_iff, by_test,
}
use Prim.Native.Nat.{Ordering}
use icecast_server.Trees.{str_compare, Tree, leaf, node, tree_search, Compare, IsOrdered, Avl}
use icecast_server.Trees.Compared.{by_order}
use icecast_server.Trees.Searched.{tree_search_lt, tree_search_gt, tree_search_eq, InTree, finds}
use icecast_server.Stats.Levels.{at_name}
use icecast_server.Stats.Walk.{walk, walk_other, walk-Says, walk_finds, MayBecome, Says}

unfoldable pub put : {A : Type 0} → (A → Bytes) → A → Tree A → Tree A
unfolding str_compare
put key x leaf = node leaf x leaf
put key x (node l y r) = elim (str_compare (key x) (key y)) [
  | Ordering.lt ↦ node (put key x l) y r
  | Ordering.gt ↦ node l y (put key x r)
  | Ordering.eq ↦ node l y r
]

abbrev pub kept : {A : Type 0} → (A → Bytes) → Bytes → A → Tree A → Tree A
kept key name y t = if str_eq (key y) name then t else put key y t

unfoldable pub drop_key : {A : Type 0} → (A → Bytes) → A → Tree A → Tree A
unfolding put
drop_key key x t = walk (kept key (key x)) t leaf

abbrev pub or : {A : Type 0} → Option A → A → Option A
or none x = some x
or (some y) x = some y

module _ {A : Type 0} (key : A → Bytes) where
  Compare-put :
      (o : Ordering) (name : Bytes) (x : A) (t : Tree A)
      → str_compare (key x) name ≡ o
      → Compare key o name t
      → Compare key o name (put key x t)
  unfolding put
  Compare-put o name x leaf e c = (tt, e, tt)
  Compare-put o name x (node l y r) e c =
      by_order (λ t. Compare key o name t) (key x) (key y) _ _ _
        (λ h. (Compare-put o name x l e c.0, c.1, c.2))
        (λ h. (c.0, c.1, Compare-put o name x r e c.2)) (λ h. c)

  pub put-IsOrdered : (x : A) (t : Tree A) → IsOrdered key t → IsOrdered key (put key x t)
  unfolding put
  put-IsOrdered x leaf o = (tt, tt, tt, tt)
  put-IsOrdered x (node l y r) o =
      by_order (λ t. IsOrdered key t) (key x) (key y) _ _ _
        (λ h. (Compare-put Ordering.lt (key y) x l h o.0, o.1, put-IsOrdered x l o.2, o.3))
        (λ h. (o.0, Compare-put Ordering.gt (key y) x r h o.1, o.2, put-IsOrdered x r o.3)) (λ h. o)

  pub put-same :
      (x : A) (t : Tree A)
      → tree_search key (key x) (put key x t) ≡ or (tree_search key (key x) t) x
  unfolding put tree_search
  put-same x leaf = tree_search_eq key (key x) leaf leaf x refl
  put-same x (node l y r) =
      by_order (λ t. tree_search key (key x) t ≡ or (tree_search key (key x) (node l y r)) x)
        (key x) (key y) _ _ _
        (λ h.
          tree_search_lt key (key x) (put key x l) r y h
          ∙ put-same x l
          ∙ ap (λ o. or o x) (sym (tree_search_lt key (key x) l r y h)))
        (λ h.
          tree_search_gt key (key x) l (put key x r) y h
          ∙ put-same x r
          ∙ ap (λ o. or o x) (sym (tree_search_gt key (key x) l r y h)))
        (λ h.
          tree_search_eq key (key x) l r y h
          ∙ ap (λ o. or o x) (sym (tree_search_eq key (key x) l r y h)))

  pub put-other :
      (x : A) (name : Bytes) (t : Tree A)
      → key x ≢ name
      → tree_search key name (put key x t) ≡ tree_search key name t
  unfolding put tree_search
  put-other x name leaf d =
      by_order (λ o. o ≡ none) name (key x) _ _ _ (λ h. refl) (λ h. refl) (λ h. absurd (d (sym h)))
  put-other x name (node l y r) d =
      by_order (λ t. tree_search key name t ≡ tree_search key name (node l y r)) (key x) (key y) _ _
        _ (λ h. there name l r (put key x l) r y (put-other x name l d) refl)
        (λ h. there name l r l (put key x r) y refl (put-other x name r d)) (λ h. refl)
    where
      there :
          (name : Bytes) (l r l' r' : Tree A) (y : A)
          → tree_search key name l' ≡ tree_search key name l
          → tree_search key name r' ≡ tree_search key name r
          → tree_search key name (node l' y r') ≡ tree_search key name (node l y r)
      there name l r l' r' y p q = ap2 p q (str_compare name (key y))
        where
          ap2 :
              {a b c d : Option A}
              → a ≡ b
              → c ≡ d
              → (o : Ordering)
              → (elim o [ Ordering.lt ↦ a | Ordering.gt ↦ c | Ordering.eq ↦ some y ])
                ≡ elim o [ Ordering.lt ↦ b | Ordering.gt ↦ d | Ordering.eq ↦ some y ]
          ap2 p q Ordering.lt = p
          ap2 p q Ordering.gt = q
          ap2 p q Ordering.eq = refl

  -- Every step of the deletion puts back what the tree had, but under one name nothing.
  pub drop_key-other :
      (x : A) (name : Bytes) (t : Tree A)
      → IsOrdered key t
      → key x ≢ name
      → tree_search key name (drop_key key x t) ≡ tree_search key name t
  unfolding drop_key tree_search
  drop_key-other x name t o d =
      walk_finds key name (kept key (key x)) (tree_search key name) (tree_search key name t) t leaf
        (λ h. h)
        (walk-Says key name (kept key (key x)) (tree_search key name) (tree_search key name t) t
          leaf step (inl refl))
        (inl refl)
    where
      step :
          (y : A)
          → InTree y t
          → (w : Tree A)
          → MayBecome key name (kept key (key x)) (tree_search key name) (tree_search key name t) w
          → Says key name
              (kept key (key x))
              (tree_search key name)
              (tree_search key name t)
              (λ z. z ≡ y)
              w
              (kept key (key x) y w)
      step y i w m = decide (Bool-cases (str_eq (key y) name))
        where
          differ : (b : Bool) → b ≡ false → ¬ (b ≡ true)
          differ b p q = cc

          into : (f : Option A) → (f ≡ none) ⊎ (f ≡ some y) → or f y ≡ some y
          into f (inl e) = ap (λ k. or k y) e
          into f (inr e) = ap (λ k. or k y) e

          same : key y ≡ name → tree_search key name (kept key (key x) y w) ≡ tree_search key name t
          same q =
              let found : tree_search key name t ≡ some y =
                ap (λ k. tree_search key k t) (sym q) ∙ finds key t y o i in
              by_test (λ u. tree_search key name u ≡ tree_search key name t)
                (str_eq (key y) (key x)) w (put key y w)
                (λ e. absurd (d (sym ((str_eq_iff (key y) (key x)).0 e) ∙ q)))
                (λ e.
                  ap (λ k. tree_search key k (put key y w)) (sym q)
                  ∙ put-same y w
                  ∙ into (tree_search key (key y) w) (elim m [
                    | inl h ↦ inl (ap (λ k. tree_search key k w) q ∙ h)
                    | inr h ↦ inr (ap (λ k. tree_search key k w) q ∙ h ∙ found)
                  ])
                  ∙ sym found)

          decide :
              (str_eq (key y) name ≡ true) ⊎ (str_eq (key y) name ≡ false)
              → Says key name
                  (kept key (key x))
                  (tree_search key name)
                  (tree_search key name t)
                  (λ z. z ≡ y)
                  w
                  (kept key (key x) y w)
          decide (inl e) = inl (same ((str_eq_iff (key y) name).0 e))
          decide (inr e) =
              let apart : key y ≢ name =
                λ q. differ (str_eq (key y) name) e ((str_eq_iff (key y) name).1 q) in
              inr (
                by_test (λ u. tree_search key name u ≡ tree_search key name w)
                    (str_eq (key y) (key x)) w (put key y w) (λ h. refl)
                    (λ h. put-other y name w apart),
                λ z q r. apart (ap key (sym q) ∙ r),
              )

  pub drop_key-same : (x : A) (t : Tree A) → tree_search key (key x) (drop_key key x t) ≡ none
  unfolding drop_key tree_search
  drop_key-same x t =
      walk_other key (key x) (kept key (key x)) (tree_search key (key x)) none t leaf (λ y w.
        by_test (λ u. tree_search key (key x) u ≡ tree_search key (key x) w)
          (str_eq (key y) (key x)) w (put key y w) (λ h. refl)
          (λ h. put-other y (key x) w (λ q. absurd (differ h ((str_eq_iff (key y) (key x)).1 q)))))
    where
      differ : {b : Bool} → b ≡ false → ¬ (b ≡ true)
      differ p q = cc

  pub walk-IsOrdered :
      (name : Bytes) (t acc : Tree A)
      → IsOrdered key acc
      → IsOrdered key (walk (kept key name) t acc)
  walk-IsOrdered name leaf acc o = o
  walk-IsOrdered name (node l y r) acc o =
      walk-IsOrdered name r (kept key name y (walk (kept key name) l acc)) (
        by_test (IsOrdered key) (str_eq (key y) name) _ _ (λ h. walk-IsOrdered name l acc o)
          (λ h. put-IsOrdered y (walk (kept key name) l acc) (walk-IsOrdered name l acc o)))

  unfoldable pub search_tree : Avl key
  unfolding drop_key
  search_tree = record {
    insert = put key;
    delete = drop_key key;
    insert-IsOrdered = λ x t o h. put-IsOrdered x t o;
    insert-tree_search = λ x t name o h.
        at_name (key x) name (tree_search key name (put key x t)) (some x) (tree_search key name t)
          (λ q.
            ap (λ k. tree_search key k (put key x t)) (sym q) ∙ put-same x t ∙ ap (λ k. or k x) h)
          (λ q. put-other x name t q);
    delete-IsOrdered = λ x t o h. walk-IsOrdered (key x) t leaf tt;
    delete-tree_search = λ x t name o h.
        at_name (key x) name (tree_search key name (drop_key key x t)) none (tree_search key name t)
          (λ q. ap (λ k. tree_search key k (drop_key key x t)) (sym q) ∙ drop_key-same x t)
          (λ q. drop_key-other x name t o q);
  }
