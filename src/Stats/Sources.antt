-- ===== src/Stats/Sources.antt =====
-- An event for a source.
use icecast_server.Prelude.{
  str_eq, by_test, ◌≡◌, refl, sym, ap, ◌∙◌, Bool, Option, none, some, if◌then◌else◌, Bytes,
  str_eq_iff, subst,
}
use icecast_server.Trees.{Tree, leaf, tree_search}
use icecast_server.Stats.Records.{
  StatsSource, Stats, StatsEvent, source_name, find_node, find_source, build_event, stats_event_inc,
  stats_event_dec,
}
use icecast_server.Stats.Changes.{process_global_node, process_source_node, Library, process_global}
use icecast_server.Stats.Process.{
  process_event, process_for, process_source, process_source_found, process_in_source, with_global,
  with_sources, new_source,
}
use icecast_server.Trees.Searched.{tree_search-key}
use icecast_server.Stats.View.{
  value_under, value_of, same_source, heard_name, IsPlain, set_plain, remove_plain, inc_plain,
  dec_plain, IsStats,
}
use icecast_server.Stats.Levels.{
  if_same, process_global_node-LevelDone, process_source_node-LevelDone,
}
use icecast_server.Stats.Processed.{
  IsProcessed, IsChangedAt, sources_done, changed-IsStats, global_done,
}
use icecast_server.Stats.SourceTrees.{
  deleted-IsChangedAt, heard_none, inserted-IsChangedAt, missing, nameless, tree_put,
  with_sources_over,
}

module _ (lib : Library) where
  -- The whole source is removed.
  whole_removed :
      (s : Stats) (snode : StatsSource) (source : Option Bytes)
      → IsStats s
      → find_source snode.source s.source_tree ≡ some snode
      → source ≡ some snode.source
      → IsProcessed (build_event source none none) s (
          some (
            record s { source_tree = lib.sources.delete snode s.source_tree },
            build_event source none none,
          ))
  unfolding build_event
  whole_removed s snode source i h a =
      sources_done s snode.source none (lib.sources.delete snode s.source_tree) i
        (deleted-IsChangedAt lib snode s.source_tree i.sources_ordered h)
        (build_event source none none) (build_event source none none) a (λ name. refl)

  named :
      (s : Stats) (snode : StatsSource) (e : StatsEvent) (m : Bytes)
      → IsStats s
      → find_source snode.source s.source_tree ≡ some snode
      → e.source ≡ some snode.source
      → e.name ≡ some m
      → IsPlain e
      → IsProcessed e s (with_sources s (process_in_source lib e s.source_tree snode (some m)))
  unfolding process_in_source
  named s snode e m i h a b p =
      tree_put s snode m e
        (process_source_node lib e snode.hidden snode.stats_tree m (find_node m snode.stats_tree)) i
        h a b
        (process_source_node-LevelDone lib snode.hidden m e snode.stats_tree
          (i.each_ordered snode.source snode h) p)

  in_source :
      (s : Stats) (snode : StatsSource) (e : StatsEvent)
      → IsStats s
      → find_source snode.source s.source_tree ≡ some snode
      → e.source ≡ some snode.source
      → IsPlain e
      → IsProcessed e s (with_sources s (process_in_source lib e s.source_tree snode e.name))
  unfolding build_event stats_event_inc stats_event_dec process_in_source with_sources
  in_source s snode e i h a (set_plain source m value) =
      named s snode e m i h a refl (set_plain source m value)
  in_source s snode e i h a (inc_plain source m) = named s snode e m i h a refl (inc_plain source m)
  in_source s snode e i h a (dec_plain source m) = named s snode e m i h a refl (dec_plain source m)
  in_source s snode e i h a (remove_plain source (some m)) =
      named s snode e m i h a refl (remove_plain source (some m))
  in_source s snode e i h a (remove_plain source none) = whole_removed s snode source i h a

  -- With a new source of no values, what was said before is said still.
  inserted_says :
      (s : Stats) (source : Bytes) (hidden : Bool)
      → find_source source s.source_tree ≡ none
      → (t : Tree StatsSource)
      → IsChangedAt source
          (some (record { source = source; hidden = hidden; stats_tree = leaf }))
          s.source_tree
          t
      → (asked : Option Bytes) (name : Bytes)
      → value_of (record s { source_tree = t }) asked name ≡ value_of s asked name
  unfolding find_node tree_search
  inserted_says s source hidden h t c none name = refl
  inserted_says s source hidden h t c (some asked) name =
      ap (λ (x : Option StatsSource). value_under x name) (c.finds asked)
      ∙ by_test (λ x. value_under x name ≡ value_under (find_source asked s.source_tree) name)
          (str_eq source asked)
          (some (record { source = source; hidden = hidden; stats_tree = leaf }))
          (find_source asked s.source_tree)
          (λ e.
            ap (λ (x : Option StatsSource). value_under x name) (sym h)
            ∙ ap (λ (k : Bytes). value_under (find_source k s.source_tree) name)
                ((str_eq_iff source asked).0 e))
          (λ e. refl)

  IsProcessed-from :
      (e : StatsEvent) (s s1 : Stats) (r : Option (Stats × StatsEvent))
      → ((asked : Option Bytes) (name : Bytes) → value_of s1 asked name ≡ value_of s asked name)
      → IsProcessed e s1 r
      → IsProcessed e s r
  IsProcessed-from e s s1 none f (a, v, p) = (a, v, λ m q. sym (f none m) ∙ p m q)
  IsProcessed-from e s s1 (some (s', e')) f (i, p) = (
    i,
    λ source name.
        p source name
        ∙ ap
            (λ (x : Option Bytes).
              if same_source e'.source source then heard_name e'.name e'.value name x else x)
            (f source name),
  )

  -- The source is made.
  in_new_source :
      (s : Stats) (source : Bytes) (e : StatsEvent)
      → IsStats s
      → find_source source s.source_tree ≡ none
      → e.source ≡ some source
      → IsPlain e
      → IsProcessed e s (
          with_sources s (
            process_in_source lib e
              (lib.sources.insert (new_source source e.action) s.source_tree)
              (new_source source e.action)
              e.name))
  in_new_source s source e i h a p =
      let snode = new_source source e.action in
      let t = lib.sources.insert snode s.source_tree in
      let c = inserted-IsChangedAt lib snode s.source_tree i.sources_ordered h tt in
      let s1 : Stats = record s { source_tree = t } in
      let there =
        c.finds source
        ∙ if_same source source (some snode) (find_source source s.source_tree) refl in
      let r = process_in_source lib e t snode e.name in
      subst (IsProcessed e s) (with_sources_over s t r) (
        IsProcessed-from e s s1 (with_sources s1 r) (inserted_says s source snode.hidden h t c)
          (in_source s1 snode e (changed-IsStats s source (some snode) t i c) there a p))

  not_found :
      (s : Stats) (source : Bytes) (e : StatsEvent)
      → IsStats s
      → find_source source s.source_tree ≡ none
      → e.source ≡ some source
      → IsPlain e
      → IsProcessed e s (with_sources s (process_source_found lib e s.source_tree source none))
  unfolding process_source_found build_event stats_event_inc stats_event_dec with_sources
  not_found s source e i h a (set_plain asked m value) =
      in_new_source s source e i h a (set_plain asked m value)
  not_found s source e i h a (inc_plain asked m) =
      in_new_source s source e i h a (inc_plain asked m)
  not_found s source e i h a (dec_plain asked m) =
      in_new_source s source e i h a (dec_plain asked m)
  not_found s source e i h a (remove_plain asked name) =
      sources_done s source none s.source_tree i (missing source s i h)
        (build_event asked name none) (build_event asked name none) a
        (λ m. sym (
          ap (λ (x : Option StatsSource). heard_name name none m (value_under x m)) h
          ∙ heard_none name m))

  globally :
      (s : Stats) (e : StatsEvent)
      → IsStats s
      → e.source ≡ none
      → IsPlain e
      → IsProcessed e s (with_global s (process_global lib e s.global_tree e.name))
  unfolding process_global with_global
  globally s e i a p = by_name e.name refl
    where
      no : (m : Bytes) → e.name ≡ some m → ¬ (e.name ≡ none)
      no m q b = cc

      by_name :
          (name : Option Bytes)
          → e.name ≡ name
          → IsProcessed e s (with_global s (process_global lib e s.global_tree name))
      by_name none b = (a, nameless e p b, λ m q. absurd (no m q b))
      by_name (some m) b =
          global_done e s m (process_global_node lib e s.global_tree m (find_node m s.global_tree))
            i a b (process_global_node-LevelDone lib m e s.global_tree i.global_ordered a p)

  source_found :
      (s : Stats) (source : Bytes) (e : StatsEvent)
      → IsStats s
      → e.source ≡ some source
      → IsPlain e
      → IsProcessed e s (with_sources s (process_source lib e s.source_tree source))
  unfolding process_source process_source_found
  source_found s source e i a p = found (find_source source s.source_tree) refl
    where
      found :
          (f : Option StatsSource)
          → find_source source s.source_tree ≡ f
          → IsProcessed e s (with_sources s (process_source_found lib e s.source_tree source f))
      found (some snode) h =
          let k = tree_search-key source_name source s.source_tree snode h in
          in_source s snode e i (ap (λ (x : Bytes). find_source x s.source_tree) k ∙ h)
            (a ∙ ap some (sym k)) p
      found none h = not_found s source e i h a p

  -- What an event does to the statistics, who heard it takes them to say.
  pub process_event-IsProcessed :
      (e : StatsEvent) (s : Stats) → IsStats s → IsPlain e → IsProcessed e s (process_event lib e s)
  unfolding process_event process_for
  process_event-IsProcessed e s i p = by_source e.source refl
    where
      by_source :
          (source : Option Bytes) → e.source ≡ source → IsProcessed e s (process_for lib e s source)
      by_source none a = globally s e i a p
      by_source (some source) a = source_found s source e i a p
