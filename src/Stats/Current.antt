-- ===== src/Stats/Current.antt =====
-- The current statistics as events.
use icecast_server.Prelude.{
  str_eq, ◌≡◌, refl, sym, ap, ◌∙◌, ◌≢◌, ◌⊎◌, inl, inr, true, false, Option, none, some, ◌++◌,
  Bool-cases, Bytes, map, subst, str_eq_iff, by_test,
}
use icecast_server.Trees.{Tree, elements, IsOrdered}
use icecast_server.Stats.Records.{
  StatsNode, StatsSource, Stats, node_name, source_name, find_node, find_source,
  make_event_from_node,
}
use icecast_server.Stats.Thread.{EventListener, source_events, sources_events, current_events}
use icecast_server.Stats.View.{
  View, value_in, value_at, value_under, value_of, same_source, heard_name, hear, hear_all, IsStats,
}
use icecast_server.Trees.Searched.{InTree, finds}
use icecast_server.Stats.Walk.{
  walk_other, walk_finds, walk-Says, MayBecome, Says, hear_all-append, hear_all-elements,
  hear_all-sources,
}

-- Before anything is heard.
abbrev pub silence : View
silence source name = none

-- What was sent to a listener and what waits for it make up the statistics.
abbrev pub IsInformed : Stats → EventListener → Type 0
IsInformed s l =
    (source : Option Bytes) (name : Bytes)
    → hear_all (l.sent ++ l.queue) silence source name ≡ value_of s source name

abbrev place : Option Bytes → Bytes → View → Option Bytes
place asked name v = v asked name

same_refl : (source : Option Bytes) → same_source source source ≡ true
same_refl none = refl
same_refl (some a) = (str_eq_iff a a).1 refl

-- The nodes of one tree, told of the source that is asked for.
module _ (source : Option Bytes) (name : Bytes) (t : Tree StatsNode)
    (o : IsOrdered node_name t) where
  node_said :
      (n : StatsNode)
      → InTree n t
      → (w : View)
      → MayBecome node_name name
          (λ n. hear (make_event_from_node source n))
          (place source name)
          (value_at t name)
          w
      → Says node_name name
          (λ n. hear (make_event_from_node source n))
          (place source name)
          (value_at t name)
          (λ y. y ≡ n)
          w
          (hear (make_event_from_node source n) w)
  unfolding make_event_from_node find_node
  node_said n i w m =
      by_test
        (λ z.
          (z ≡ value_at t name) ⊎ ((z ≡ w source name) × ((y : StatsNode) → y ≡ n → y.name ≢ name)))
        (same_source source source) (heard_name (some n.name) (some n.value) name (w source name))
        (w source name)
        (λ e.
          by_test
            (λ z.
              (z ≡ value_at t name)
              ⊎ ((z ≡ w source name) × ((y : StatsNode) → y ≡ n → y.name ≢ name)))
            (str_eq n.name name) (some n.value) (w source name)
            (λ k. inl (
              ap value_in (sym (finds node_name t n o i))
              ∙ ap (value_at t) ((str_eq_iff n.name name).0 k)))
            (λ k.
              inr
                (refl, λ y q p. differ k ((str_eq_iff n.name name).1 (ap node_name (sym q) ∙ p)))))
        (λ e. absurd (differ' e (same_refl source)))
    where
      differ : str_eq n.name name ≡ false → ¬ (str_eq n.name name ≡ true)
      differ p q = cc

      differ' : same_source source source ≡ false → ¬ (same_source source source ≡ true)
      differ' p q = cc

  nodes_said :
      (v : View)
      → (v source name ≡ none) ⊎ (v source name ≡ value_at t name)
      → hear_all (map (make_event_from_node source) (elements t)) v source name ≡ value_at t name
  unfolding find_node
  nodes_said v m =
      ap (place source name) (hear_all-elements (make_event_from_node source) t v)
      ∙ walk_finds node_name name (λ n. hear (make_event_from_node source n)) (place source name)
          (value_at t name) t v (ap value_in)
          (walk-Says node_name name (λ n. hear (make_event_from_node source n)) (place source name)
            (value_at t name) t v node_said m)
          m

-- The nodes of another source.
nodes_other :
    (source asked : Option Bytes) (name : Bytes) (t : Tree StatsNode) (v : View)
    → same_source source asked ≡ false
    → hear_all (map (make_event_from_node source) (elements t)) v asked name ≡ v asked name
unfolding make_event_from_node
nodes_other source asked name t v e =
    ap (place asked name) (hear_all-elements (make_event_from_node source) t v)
    ∙ walk_other node_name name (λ n. hear (make_event_from_node source n)) (place asked name) none
        t v (λ n w. rw e refl)

module _ (s : Stats) (i : IsStats s) (source name : Bytes) where
  source_said :
      (x : StatsSource)
      → InTree x s.source_tree
      → (w : View)
      → MayBecome source_name source
          (λ x. hear_all (source_events x))
          (place (some source) name)
          (value_of s (some source) name)
          w
      → Says source_name source
          (λ x. hear_all (source_events x))
          (place (some source) name)
          (value_of s (some source) name)
          (λ y. y ≡ x)
          w
          (hear_all (source_events x) w)
  unfolding source_events find_source
  source_said x j w m = by_name (Bool-cases (str_eq x.source source))
    where
      there : x.source ≡ source → find_source source s.source_tree ≡ some x
      there q =
          ap (λ k. find_source k s.source_tree) (sym q)
          ∙ finds source_name s.source_tree x i.sources_ordered j

      differ : str_eq x.source source ≡ false → ¬ (str_eq x.source source ≡ true)
      differ p q = cc

      found :
          x.source ≡ source
          → hear_all (source_events x) w (some source) name ≡ value_of s (some source) name
      found q =
          let g : value_of s (some source) name ≡ value_at x.stats_tree name =
            ap (λ f. value_under f name) (there q) in
          ap (λ k. hear_all (source_events x) w (some k) name) (sym q)
          ∙ nodes_said (some x.source) name x.stats_tree (i.each_ordered source x (there q)) w (
              subst (λ k. (w (some k) name ≡ none) ⊎ (w (some k) name ≡ value_at x.stats_tree name))
                (sym q) (elim m [ inl a ↦ inl a | inr a ↦ inr (a ∙ g) ]))
          ∙ sym g

      by_name :
          (str_eq x.source source ≡ true) ⊎ (str_eq x.source source ≡ false)
          → Says source_name source
              (λ x. hear_all (source_events x))
              (place (some source) name)
              (value_of s (some source) name)
              (λ y. y ≡ x)
              w
              (hear_all (source_events x) w)
      by_name (inl e) = inl (found ((str_eq_iff x.source source).0 e))
      by_name (inr e) = inr (
        nodes_other (some x.source) (some source) name x.stats_tree w e,
        λ y q p. differ e ((str_eq_iff x.source source).1 (ap source_name (sym q) ∙ p)),
      )

  sources_said :
      (v : View)
      → v (some source) name ≡ none
      → hear_all (sources_events (elements s.source_tree)) v (some source) name
        ≡ value_of s (some source) name
  unfolding find_source
  sources_said v m =
      ap (place (some source) name) (hear_all-sources s.source_tree v)
      ∙ walk_finds source_name source (λ x. hear_all (source_events x)) (place (some source) name)
          (value_of s (some source) name) s.source_tree v (ap (λ f. value_under f name))
          (walk-Says source_name source (λ x. hear_all (source_events x)) (place (some source) name)
            (value_of s (some source) name) s.source_tree v source_said (inl m))
          (inl m)

-- What a new listener is queued says what the statistics say.
pub current_events-says :
    (s : Stats)
    → IsStats s
    → (source : Option Bytes) (name : Bytes)
    → hear_all (current_events s) silence source name ≡ value_of s source name
unfolding current_events source_events
current_events-says s i none name =
    let v = hear_all (map (make_event_from_node none) (elements s.global_tree)) silence in
    ap (place none name) (
      hear_all-append (map (make_event_from_node none) (elements s.global_tree))
        (sources_events (elements s.source_tree)) silence
      ∙ hear_all-sources s.source_tree v)
    ∙ walk_other source_name name (λ x. hear_all (source_events x)) (place none name) none
        s.source_tree v (λ x w. nodes_other (some x.source) none name x.stats_tree w refl)
    ∙ nodes_said none name s.global_tree i.global_ordered silence (inl refl)
current_events-says s i (some source) name =
    let v = hear_all (map (make_event_from_node none) (elements s.global_tree)) silence in
    ap (place (some source) name) (
      hear_all-append (map (make_event_from_node none) (elements s.global_tree))
        (sources_events (elements s.source_tree)) silence)
    ∙ sources_said s i source name v
        (nodes_other none (some source) name s.global_tree silence refl)
