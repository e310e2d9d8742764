-- ===== src/Stats/Levels.antt =====
-- What an event does to one tree of nodes.
use icecast_server.Prelude.{
  pos, negsuc, ◌+ℤ◌, str_eq, ◌≡◌, refl, sym, ap, ◌∙◌, ◌≢◌, Bool, true, false, Option, none, some,
  if◌then◌else◌, Bytes, str_eq_iff, by_test, take,
}
use icecast_server.Trees.{Tree, replace, tree_search, IsOrdered}
use icecast_server.Stats.Records.{
  stats_event_dec, stats_event_inc, build_event, StatsNode, StatsEvent, node_name, find_node,
}
use icecast_server.Stats.Changes.{Library, change_node, process_global_node, process_source_node}
use icecast_server.Trees.Searched.{
  tree_search-key, tree_search-replace-same, tree_search-replace-other, IsOrdered-replace,
}
use icecast_server.Stats.View.{
  value_in, value_at, IsPlain, set_plain, remove_plain, inc_plain, dec_plain,
}

pub at_name {ℓ} :
    {A : Type ℓ} (m name : Bytes) (x a b : A)
    → (m ≡ name → x ≡ a)
    → (m ≢ name → x ≡ b)
    → x ≡ (if str_eq m name then a else b)
at_name m name x a b same other =
    by_test (λ y. x ≡ y) (str_eq m name) a b (λ e. same ((str_eq_iff m name).0 e))
      (λ e. other (λ q. differ e ((str_eq_iff m name).1 q)))
  where
    differ : str_eq m name ≡ false → ¬ (str_eq m name ≡ true)
    differ p q = cc

pub if_same {ℓ} :
    {A : Type ℓ} (m name : Bytes) (a b : A) → m ≡ name → (if str_eq m name then a else b) ≡ a
if_same m name a b q = rw ((str_eq_iff m name).1 q) refl

pub if_other {ℓ} :
    {A : Type ℓ} (m name : Bytes) (a b : A) → m ≢ name → (if str_eq m name then a else b) ≡ b
if_other m name a b q =
    by_test (λ y. y ≡ b) (str_eq m name) a b (λ e. absurd (q ((str_eq_iff m name).0 e))) (λ e. refl)

-- A NULL is read only of a global event without a value where nothing has the name; or the tree is
-- ordered, and it has the value that the event now has under its name.
abbrev pub LevelDone :
    Bytes → StatsEvent → Tree StatsNode → Option (Tree StatsNode × StatsEvent) → Type 0
LevelDone m e t none = (e.source ≡ none) × (e.value ≡ none) × (find_node m t ≡ none)
LevelDone m e t (some (t', e')) =
    IsOrdered node_name t'
    × (e'.source ≡ e.source)
    × (e'.name ≡ e.name)
    × ((name : Bytes) → value_at t' name ≡ (if str_eq m name then e'.value else value_at t name))

module _ (lib : Library) (m : Bytes) (e : StatsEvent) (t : Tree StatsNode)
    (o : IsOrdered node_name t) where
  -- Nothing is there, and nothing comes.
  unchanged : find_node m t ≡ none → e.value ≡ none → LevelDone m e t (some (t, e))
  unchanged h v = (
    o,
    refl,
    refl,
    λ name.
        at_name m name (value_at t name) e.value (value_at t name)
          (λ q. ap (value_at t) (sym q) ∙ ap value_in h ∙ sym v) (λ q. refl),
  )

  replaced :
      (n n' : StatsNode) (e' : StatsEvent)
      → find_node m t ≡ some n
      → n'.name ≡ m
      → e'.source ≡ e.source
      → e'.name ≡ e.name
      → e'.value ≡ some n'.value
      → LevelDone m e t (some (replace node_name n' t, e'))
  unfolding find_node
  replaced n n' e' h k a b v = (
    IsOrdered-replace node_name n' t o,
    a,
    b,
    λ name.
        at_name m name (value_at (replace node_name n' t) name) e'.value (value_at t name)
          (λ q.
            ap (value_at (replace node_name n' t)) (sym (k ∙ q))
            ∙ ap value_in (
                tree_search-replace-same node_name n' t n
                  (ap (λ x. tree_search node_name x t) k ∙ h))
            ∙ sym v)
          (λ q. ap value_in (tree_search-replace-other node_name n' name t (λ x. q (sym k ∙ x)))),
  )

  deleted :
      (n : StatsNode)
      → find_node m t ≡ some n
      → e.value ≡ none
      → LevelDone m e t (some (lib.nodes.delete n t, e))
  unfolding find_node
  deleted n h v =
      let k = tree_search-key node_name m t n h in
      let there : tree_search node_name n.name t ≡ some n =
        ap (λ x. tree_search node_name x t) k ∙ h in
      (
        lib.nodes.delete-IsOrdered n t o there,
        refl,
        refl,
        λ name.
            at_name m name (value_at (lib.nodes.delete n t) name) e.value (value_at t name)
              (λ q.
                ap value_in (
                  lib.nodes.delete-tree_search n t name o there
                  ∙ if_same n.name name none (tree_search node_name name t) (k ∙ q))
                ∙ sym v)
              (λ q. ap value_in (
                lib.nodes.delete-tree_search n t name o there
                ∙ if_other n.name name none (tree_search node_name name t) (λ x. q (sym k ∙ x)))),
      )

  inserted :
      (n : StatsNode)
      → find_node m t ≡ none
      → n.name ≡ m
      → e.value ≡ some n.value
      → LevelDone m e t (some (lib.nodes.insert n t, e))
  unfolding find_node
  inserted n h k v =
      let fresh : tree_search node_name n.name t ≡ none =
        ap (λ x. tree_search node_name x t) k ∙ h in
      (
        lib.nodes.insert-IsOrdered n t o fresh,
        refl,
        refl,
        λ name.
            at_name m name (value_at (lib.nodes.insert n t) name) e.value (value_at t name)
              (λ q.
                ap value_in (
                  lib.nodes.insert-tree_search n t name o fresh
                  ∙ if_same n.name name (some n) (tree_search node_name name t) (k ∙ q))
                ∙ sym v)
              (λ q. ap value_in (
                lib.nodes.insert-tree_search n t name o fresh
                ∙ if_other n.name name (some n) (tree_search node_name name t)
                    (λ x. q (sym k ∙ x)))),
      )

-- A node that is there.
changed :
    (lib : Library) (m : Bytes) (e : StatsEvent) (t : Tree StatsNode) (n : StatsNode)
    → IsOrdered node_name t
    → find_node m t ≡ some n
    → IsPlain e
    → LevelDone m e t (change_node lib e t n)
unfolding change_node find_node build_event stats_event_inc stats_event_dec
changed lib m e t n o h (set_plain source name value) =
    replaced lib m e t o n (record n { value = value }) e h (tree_search-key node_name m t n h) refl
      refl refl
changed lib m e t n o h (remove_plain source name) = deleted lib m e t o n h refl
changed lib m e t n o h (inc_plain source name) =
    let text = take 15 (lib.printed (lib.atoi n.value +ℤ pos 1)) in
    replaced lib m e t o n (record n { value = text }) (record e { value = some text }) h
      (tree_search-key node_name m t n h) refl refl refl
changed lib m e t n o h (dec_plain source name) =
    let text = take 15 (lib.printed (lib.atoi n.value +ℤ negsuc 0)) in
    replaced lib m e t o n (record n { value = text }) (record e { value = some text }) h
      (tree_search-key node_name m t n h) refl refl refl

-- The node is not there.
pub added_global :
    (lib : Library) (m : Bytes) (e : StatsEvent) (t : Tree StatsNode)
    → IsOrdered node_name t
    → find_node m t ≡ none
    → e.source ≡ none
    → IsPlain e
    → LevelDone m e t (process_global_node lib e t m none)
unfolding process_global_node build_event stats_event_inc stats_event_dec
added_global lib m e t o h a (set_plain source name value) =
    inserted lib m e t o (record { name = m; value = value; hidden = false }) h refl refl
added_global lib m e t o h a (remove_plain source name) = unchanged lib m e t o h refl
added_global lib m e t o h a (inc_plain source name) = (a, refl, h)
added_global lib m e t o h a (dec_plain source name) = (a, refl, h)

pub added_to_source :
    (lib : Library) (hidden : Bool) (m : Bytes) (e : StatsEvent) (t : Tree StatsNode)
    → IsOrdered node_name t
    → find_node m t ≡ none
    → IsPlain e
    → LevelDone m e t (process_source_node lib e hidden t m none)
unfolding process_source_node build_event stats_event_inc stats_event_dec
added_to_source lib hidden m e t o h (set_plain source name value) =
    inserted lib m e t o (record { name = m; value = value; hidden = hidden }) h refl refl
added_to_source lib hidden m e t o h (remove_plain source name) = unchanged lib m e t o h refl
added_to_source lib hidden m e t o h (inc_plain source name) = unchanged lib m e t o h refl
added_to_source lib hidden m e t o h (dec_plain source name) = unchanged lib m e t o h refl

-- An event for a name of a tree.
pub process_global_node-LevelDone :
    (lib : Library) (m : Bytes) (e : StatsEvent) (t : Tree StatsNode)
    → IsOrdered node_name t
    → e.source ≡ none
    → IsPlain e
    → LevelDone m e t (process_global_node lib e t m (find_node m t))
unfolding process_global_node
process_global_node-LevelDone lib m e t o a p = found (find_node m t) refl
  where
    found :
        (f : Option StatsNode)
        → find_node m t ≡ f
        → LevelDone m e t (process_global_node lib e t m f)
    found none h = added_global lib m e t o h a p
    found (some n) h = changed lib m e t n o h p

pub process_source_node-LevelDone :
    (lib : Library) (hidden : Bool) (m : Bytes) (e : StatsEvent) (t : Tree StatsNode)
    → IsOrdered node_name t
    → IsPlain e
    → LevelDone m e t (process_source_node lib e hidden t m (find_node m t))
unfolding process_source_node
process_source_node-LevelDone lib hidden m e t o p = found (find_node m t) refl
  where
    found :
        (f : Option StatsNode)
        → find_node m t ≡ f
        → LevelDone m e t (process_source_node lib e hidden t m f)
    found none h = added_to_source lib hidden m e t o h p
    found (some n) h = changed lib m e t n o h p
