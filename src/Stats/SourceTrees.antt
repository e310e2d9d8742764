-- ===== src/Stats/SourceTrees.antt =====
-- The tree of the sources with one of them changed, made or deleted.
use icecast_server.Prelude.{
  str_eq, by_test, ◌≡◌, refl, sym, ap, ◌∙◌, Option, none, some, Bytes, subst,
}
use icecast_server.Trees.{Tree, replace, IsOrdered}
use icecast_server.Stats.Records.{
  StatsNode, StatsSource, Stats, StatsEvent, node_name, source_name, find_source, build_event,
  stats_event_inc, stats_event_dec,
}
use icecast_server.Stats.Changes.{Library}
use icecast_server.Stats.Process.{with_sources, put_tree}
use icecast_server.Trees.Searched.{
  tree_search-replace-same, tree_search-replace-other, IsOrdered-replace,
}
use icecast_server.Stats.View.{
  value_at, value_under, heard_name, IsPlain, set_plain, remove_plain, inc_plain, dec_plain,
  IsStats,
}
use icecast_server.Stats.Levels.{LevelDone, at_name}
use icecast_server.Stats.Processed.{IsProcessed, IsChangedAt, sources_done}

pub replaced-IsChangedAt :
    (snode y : StatsSource) (t : Tree StatsSource)
    → IsOrdered source_name t
    → find_source y.source t ≡ some snode
    → IsOrdered node_name y.stats_tree
    → IsChangedAt y.source (some y) t (replace source_name y t)
unfolding find_source
replaced-IsChangedAt snode y t o h f = record {
  ordered = IsOrdered-replace source_name y t o;
  finds = λ asked.
      at_name y.source asked (find_source asked (replace source_name y t)) (some y)
        (find_source asked t)
        (λ q.
          ap (λ (k : Bytes). find_source k (replace source_name y t)) (sym q)
          ∙ tree_search-replace-same source_name y t snode h)
        (λ q. tree_search-replace-other source_name y asked t q);
  fits = λ z e. same z e;
}
  where
    same : (z : StatsSource) → some y ≡ some z → IsOrdered node_name z.stats_tree
    same z e =
        subst
          (λ (x : Option StatsSource).
            IsOrdered node_name (elim x [ none ↦ y.stats_tree | some w ↦ w.stats_tree ]))
          e f

-- The nodes of a source have changed.
pub tree_put :
    (s : Stats) (snode : StatsSource) (m : Bytes) (e : StatsEvent)
    (r : Option (Tree StatsNode × StatsEvent))
    → IsStats s
    → find_source snode.source s.source_tree ≡ some snode
    → e.source ≡ some snode.source
    → e.name ≡ some m
    → LevelDone m e snode.stats_tree r
    → IsProcessed e s (with_sources s (put_tree s.source_tree snode r))
unfolding with_sources put_tree
tree_put s snode m e none i h a b (c, v, k) = absurd (no (sym c ∙ a))
  where
    no : ¬ (none ≡ some snode.source)
    no q = cc
tree_put s snode m e (some (t, e')) i h a b (o, c, k, d) =
    let y : StatsSource = record snode { stats_tree = t } in
    sources_done s snode.source (some y) (replace source_name y s.source_tree) i
      (replaced-IsChangedAt snode y s.source_tree i.sources_ordered h o) e e' (c ∙ a)
      (λ name.
        d name
        ∙ ap (λ (x : Option Bytes). heard_name x e'.value name (value_at snode.stats_tree name))
            (sym (k ∙ b))
        ∙ ap (λ (x : Option StatsSource). heard_name e'.name e'.value name (value_under x name))
            (sym h))

pub with_sources_over :
    (s : Stats) (t : Tree StatsSource) (r : Option (Tree StatsSource × StatsEvent))
    → with_sources (record s { source_tree = t }) r ≡ with_sources s r
unfolding with_sources
with_sources_over s t none = refl
with_sources_over s t (some r) = refl

pub missing :
    (source : Bytes) (s : Stats)
    → IsStats s
    → find_source source s.source_tree ≡ none
    → IsChangedAt source none s.source_tree s.source_tree
missing source s i h = record {
  ordered = i.sources_ordered;
  finds = λ asked.
      at_name source asked (find_source asked s.source_tree) none (find_source asked s.source_tree)
        (λ q. ap (λ (k : Bytes). find_source k s.source_tree) (sym q) ∙ h) (λ q. refl);
  fits = λ z e. absurd (no z e);
}
  where
    no : (z : StatsSource) → ¬ (none ≡ some z)
    no z e = cc

pub heard_none : (name : Option Bytes) (m : Bytes) → heard_name name none m none ≡ none
heard_none none m = refl
heard_none (some n) m = by_test (λ x. x ≡ none) (str_eq n m) none none (λ e. refl) (λ e. refl)

pub nameless : (e : StatsEvent) → IsPlain e → e.name ≡ none → e.value ≡ none
unfolding build_event stats_event_inc stats_event_dec
nameless e (set_plain source name value) b = cc
nameless e (remove_plain source name) b = refl
nameless e (inc_plain source name) b = refl
nameless e (dec_plain source name) b = refl

module _ (lib : Library) where
  pub deleted-IsChangedAt :
      (snode : StatsSource) (t : Tree StatsSource)
      → IsOrdered source_name t
      → find_source snode.source t ≡ some snode
      → IsChangedAt snode.source none t (lib.sources.delete snode t)
  unfolding find_source
  deleted-IsChangedAt snode t o h = record {
    ordered = lib.sources.delete-IsOrdered snode t o h;
    finds = λ asked. lib.sources.delete-tree_search snode t asked o h;
    fits = λ z e. absurd (no z e);
  }
    where
      no : (z : StatsSource) → ¬ (none ≡ some z)
      no z e = cc

  pub inserted-IsChangedAt :
      (snode : StatsSource) (t : Tree StatsSource)
      → IsOrdered source_name t
      → find_source snode.source t ≡ none
      → IsOrdered node_name snode.stats_tree
      → IsChangedAt snode.source (some snode) t (lib.sources.insert snode t)
  unfolding find_source
  inserted-IsChangedAt snode t o h f = record {
    ordered = lib.sources.insert-IsOrdered snode t o h;
    finds = λ asked. lib.sources.insert-tree_search snode t asked o h;
    fits = λ z e. same z e;
  }
    where
      same : (z : StatsSource) → some snode ≡ some z → IsOrdered node_name z.stats_tree
      same z e =
          subst
            (λ (x : Option StatsSource).
              IsOrdered node_name (elim x [ none ↦ snode.stats_tree | some w ↦ w.stats_tree ]))
            e f
