-- ===== src/Stats/Processed.antt =====
-- `process_global_event` and `process_source_event` on a plain event.
use icecast_server.Prelude.{
  subst, str_eq, ◌≡◌, refl, sym, ap, ◌∙◌, ◌⊎◌, inl, inr, true, false, Option, none, some,
  if◌then◌else◌, Bool-cases, Bytes, str_eq_iff,
}
use icecast_server.Trees.{Tree, IsOrdered}
use icecast_server.Stats.Records.{
  StatsNode, StatsSource, Stats, StatsEvent, node_name, source_name, find_source,
}
use icecast_server.Stats.Process.{with_global}
use icecast_server.Stats.View.{
  value_in, View, value_at, value_under, value_of, same_source, heard_name, hear, IsStats,
}
use icecast_server.Stats.Levels.{LevelDone, at_name, if_same, if_other}

-- A global event without a value, for a name that has none: a NULL is read.
abbrev pub IsFault : StatsEvent → Stats → Type 0
IsFault e s =
    (e.source ≡ none)
    × (e.value ≡ none)
    × ((m : Bytes) → e.name ≡ some m → value_of s none m ≡ none)

-- The statistics are what one takes them for who heard the event as it was processed.
abbrev pub IsProcessed : StatsEvent → Stats → Option (Stats × StatsEvent) → Type 0
IsProcessed e s none = IsFault e s
IsProcessed e s (some (s', e')) =
    IsStats s'
    × ((source : Option Bytes) (name : Bytes)
        → value_of s' source name ≡ hear e' (value_of s) source name)

-- An event for a source that was heard.
pub heard_source :
    (e : StatsEvent) (source : Option Bytes) (v : View) (asked : Option Bytes) (name : Bytes)
    → e.source ≡ source
    → hear e v asked name ≡ (
        if same_source source asked
        then heard_name e.name e.value name (v asked name)
        else v asked name)
heard_source e source v asked name q = rw q refl

pub global_done :
    (e : StatsEvent) (s : Stats) (m : Bytes) (r : Option (Tree StatsNode × StatsEvent))
    → IsStats s
    → e.source ≡ none
    → e.name ≡ some m
    → LevelDone m e s.global_tree r
    → IsProcessed e s (with_global s r)
unfolding with_global
global_done e s m none i a b (c, v, h) =
    (c, v, λ k q. subst (λ (x : Bytes). value_at s.global_tree x ≡ none) (same k q) (ap value_in h))
  where
    same : (k : Bytes) → e.name ≡ some k → m ≡ k
    same k q = ap (λ (o : Option Bytes). elim o [ none ↦ m | some x ↦ x ]) (sym b ∙ q)
global_done e s m (some (t, e')) i a b (o, c, k, d) = (
  record { global_ordered = o; sources_ordered = i.sources_ordered; each_ordered = i.each_ordered },
  heard,
)
  where
    heard :
        (source : Option Bytes) (name : Bytes)
        → value_of (record s { global_tree = t }) source name ≡ hear e' (value_of s) source name
    heard none name =
        d name
        ∙ ap (λ (x : Option Bytes). heard_name x e'.value name (value_at s.global_tree name))
            (sym (k ∙ b))
        ∙ sym (heard_source e' none (value_of s) none name (c ∙ a))
    heard (some source) name = sym (heard_source e' none (value_of s) (some source) name (c ∙ a))

-- A tree of sources that has something else under one name.
pub record IsChangedAt (source : Bytes) (new : Option StatsSource) (t t' : Tree StatsSource)
    : Type 0 where
  pub ordered : IsOrdered source_name t'
  pub finds :
      (asked : Bytes)
      → find_source asked t' ≡ (if str_eq source asked then new else find_source asked t)
  pub fits : (y : StatsSource) → new ≡ some y → IsOrdered node_name y.stats_tree

module _ (s : Stats) (source : Bytes) (new : Option StatsSource) (t : Tree StatsSource)
    (i : IsStats s) (c : IsChangedAt source new s.source_tree t) where
  pub changed-IsStats : IsStats (record s { source_tree = t })
  changed-IsStats = record {
    global_ordered = i.global_ordered;
    sources_ordered = c.ordered;
    each_ordered =
        λ asked y h. at_source asked y (Bool-cases (str_eq source asked)) (sym (c.finds asked) ∙ h);
  }
    where
      at_source :
          (asked : Bytes) (y : StatsSource)
          → (str_eq source asked ≡ true) ⊎ (str_eq source asked ≡ false)
          → (if str_eq source asked then new else find_source asked s.source_tree) ≡ some y
          → IsOrdered node_name y.stats_tree
      at_source asked y (inl e) h = c.fits y (
          sym (
            if_same source asked new (find_source asked s.source_tree)
              ((str_eq_iff source asked).0 e))
          ∙ h)
      at_source asked y (inr e) h = i.each_ordered asked y (
          sym (
            if_other source asked new (find_source asked s.source_tree)
              (λ q. differ e ((str_eq_iff source asked).1 q)))
          ∙ h)
        where
          differ : str_eq source asked ≡ false → ¬ (str_eq source asked ≡ true)
          differ p q = cc

  pub sources_done :
      (before e : StatsEvent)
      → e.source ≡ some source
      → ((name : Bytes)
          → value_under new name
            ≡ heard_name e.name e.value name (value_under (find_source source s.source_tree) name))
      → IsProcessed before s (some (record s { source_tree = t }, e))
  sources_done before e a d = (changed-IsStats, heard)
    where
      heard :
          (asked : Option Bytes) (name : Bytes)
          → value_of (record s { source_tree = t }) asked name ≡ hear e (value_of s) asked name
      heard none name = sym (heard_source e (some source) (value_of s) none name a)
      heard (some asked) name =
          at_name source asked (value_under (find_source asked t) name)
            (heard_name e.name e.value name (value_under (find_source asked s.source_tree) name))
            (value_under (find_source asked s.source_tree) name)
            (λ q.
              ap (λ (o : Option StatsSource). value_under o name)
                (c.finds asked ∙ if_same source asked new (find_source asked s.source_tree) q)
              ∙ d name
              ∙ ap
                  (λ (k : Bytes).
                    heard_name e.name e.value name (value_under (find_source k s.source_tree) name))
                  q)
            (λ q.
              ap (λ (o : Option StatsSource). value_under o name)
                (c.finds asked ∙ if_other source asked new (find_source asked s.source_tree) q))
          ∙ sym (heard_source e (some source) (value_of s) (some asked) name a)
