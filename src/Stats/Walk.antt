-- ===== src/Stats/Walk.antt =====
-- The walk through a tree, element by element.
use icecast_server.Prelude.{
  ◌≡◌, refl, sym, ap, ◌∙◌, ◌≢◌, ◌⊎◌, inl, inr, Option, none, some, List, [], ◌∷◌, ◌++◌, Bytes, map,
}
use icecast_server.Trees.{Tree, leaf, node, tree_search, elements}
use icecast_server.Stats.Records.{StatsSource, StatsEvent}
use icecast_server.Stats.Thread.{source_events, sources_events}
use icecast_server.Trees.Searched.{InTree, tree_search-InTree, tree_search-key}
use icecast_server.Stats.View.{View, hear, hear_all}

pub hear_all-append :
    (xs ys : List StatsEvent) (v : View) → hear_all (xs ++ ys) v ≡ hear_all ys (hear_all xs v)
hear_all-append [] ys v = refl
hear_all-append (x ∷ xs) ys v = hear_all-append xs ys (hear x v)

-- One after another, in order.
abbrev pub walk : {A V : Type 0} → (A → V → V) → Tree A → V → V
walk step leaf v = v
walk step (node l x r) v = walk step r (step x (walk step l v))

module _ {A V B : Type 0} (key : A → Bytes) (name : Bytes) (step : A → V → V) (at : V → Option B)
    (g : Option B) where
  abbrev pub MayBecome : V → Type 0
  MayBecome v = (at v ≡ none) ⊎ (at v ≡ g)

  abbrev pub Says : (A → Type 0) → V → V → Type 0
  Says P v v' = (at v' ≡ g) ⊎ ((at v' ≡ at v) × ((x : A) → P x → key x ≢ name))

  Says-MayBecome : (P : A → Type 0) (v v' : V) → MayBecome v → Says P v v' → MayBecome v'
  Says-MayBecome P v v' m (inl e) = inr e
  Says-MayBecome P v v' (inl e) (inr (k, d)) = inl (k ∙ e)
  Says-MayBecome P v v' (inr e) (inr (k, d)) = inr (k ∙ e)

  pub walk-Says :
      (t : Tree A) (v : V)
      → ((x : A) → InTree x t → (w : V) → MayBecome w → Says (λ y. y ≡ x) w (step x w))
      → MayBecome v
      → Says (λ x. InTree x t) v (walk step t v)
  walk-Says leaf v h m = inr (refl, λ x i. absurd i)
  walk-Says (node l x r) v h m =
      let a = walk-Says l v (λ y i. h y (inl i)) m in
      let v1 = walk step l v in
      let m1 = Says-MayBecome (λ y. InTree y l) v v1 m a in
      let b = h x (inr (inl refl)) v1 m1 in
      let v2 = step x v1 in
      let m2 = Says-MayBecome (λ y. y ≡ x) v1 v2 m1 b in
      joined (at v) (at v1) (at v2) (at (walk step r v2)) a b
        (walk-Says r v2 (λ y i. h y (inr (inr i))) m2)
    where
      joined :
          (p q s u : Option B)
          → (q ≡ g) ⊎ ((q ≡ p) × ((y : A) → InTree y l → key y ≢ name))
          → (s ≡ g) ⊎ ((s ≡ q) × ((y : A) → y ≡ x → key y ≢ name))
          → (u ≡ g) ⊎ ((u ≡ s) × ((y : A) → InTree y r → key y ≢ name))
          → (u ≡ g) ⊎ ((u ≡ p) × ((y : A) → InTree y (node l x r) → key y ≢ name))
      joined p q s u a b (inl e) = inl e
      joined p q s u a (inl f) (inr (e, d)) = inl (e ∙ f)
      joined p q s u (inl c) (inr (f, d')) (inr (e, d)) = inl (e ∙ f ∙ c)
      joined p q s u (inr (c, d'')) (inr (f, d')) (inr (e, d)) = inr (e ∙ f ∙ c, λ y i. differs y i)
        where
          differs : (y : A) → InTree y (node l x r) → key y ≢ name
          differs y (inl i) = d'' y i
          differs y (inr (inl i)) = d' y i
          differs y (inr (inr i)) = d y i

  -- The elements that do not matter.
  pub walk_other :
      (t : Tree A) (v : V) → ((x : A) (w : V) → at (step x w) ≡ at w) → at (walk step t v) ≡ at v
  walk_other leaf v h = refl
  walk_other (node l x r) v h =
      walk_other r (step x (walk step l v)) h ∙ h x (walk step l v) ∙ walk_other l v h

  -- What is found under the name is said.
  pub walk_finds :
      (t : Tree A) (v : V)
      → (tree_search key name t ≡ none → g ≡ none)
      → Says (λ x. InTree x t) v (walk step t v)
      → MayBecome v
      → at (walk step t v) ≡ g
  walk_finds t v n s m = found (tree_search key name t) refl s
    where
      found :
          (f : Option A)
          → tree_search key name t ≡ f
          → Says (λ x. InTree x t) v (walk step t v)
          → at (walk step t v) ≡ g
      found f h (inl e) = e
      found none h (inr (e, d)) = e ∙ empty m (n h)
        where
          empty : MayBecome v → g ≡ none → at v ≡ g
          empty (inl k) q = k ∙ sym q
          empty (inr k) q = k
      found (some x) h (inr (e, d)) =
          absurd (d x (tree_search-InTree key name t x h) (tree_search-key key name t x h))

pub hear_all-elements :
    {A : Type 0} (f : A → StatsEvent) (t : Tree A) (v : View)
    → hear_all (map f (elements t)) v ≡ walk (λ x. hear (f x)) t v
unfolding elements
hear_all-elements {A = A} f leaf v = refl
hear_all-elements {A = A} f (node l x r) v =
    split (elements l) v
    ∙ ap (λ w. hear_all (map f (elements r)) (hear (f x) w)) (hear_all-elements f l v)
    ∙ hear_all-elements f r (hear (f x) (walk (λ x. hear (f x)) l v))
  where
    split :
        (xs : List A) (w : View)
        → hear_all (map f (xs ++ x ∷ elements r)) w
          ≡ hear_all (map f (elements r)) (hear (f x) (hear_all (map f xs) w))
    split [] w = refl
    split (y ∷ ys) w = split ys (hear (f y) w)

pub hear_all-sources :
    (t : Tree StatsSource) (v : View)
    → hear_all (sources_events (elements t)) v ≡ walk (λ x. hear_all (source_events x)) t v
unfolding elements sources_events
hear_all-sources leaf v = refl
hear_all-sources (node l x r) v =
    split (elements l) v
    ∙ ap (λ w. hear_all (sources_events (elements r)) (hear_all (source_events x) w))
        (hear_all-sources l v)
    ∙ hear_all-sources r (hear_all (source_events x) (walk (λ x. hear_all (source_events x)) l v))
  where
    split :
        (xs : List StatsSource) (w : View)
        → hear_all (sources_events (xs ++ x ∷ elements r)) w
          ≡ hear_all
              (sources_events (elements r))
              (hear_all (source_events x) (hear_all (sources_events xs) w))
    split [] w = hear_all-append (source_events x) (sources_events (elements r)) w
    split (y ∷ ys) w =
        hear_all-append (source_events y) (sources_events (ys ++ x ∷ elements r)) w
        ∙ split ys (hear_all (source_events y) w)
        ∙ sym (
            ap (λ w'. hear_all (sources_events (elements r)) (hear_all (source_events x) w'))
              (hear_all-append (source_events y) (sources_events ys) w))
