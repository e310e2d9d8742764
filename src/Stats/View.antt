-- ===== src/Stats/View.antt =====
-- What the statistics say, and what one who reads the events that src/stats.c sends takes them to say.
use icecast_server.Prelude.{
  str_eq, ◌≡◌, Bool, true, false, Option, none, some, List, [], ◌∷◌, if◌then◌else◌, Bytes,
}
use icecast_server.Trees.{Tree, IsOrdered}
use icecast_server.Stats.Records.{
  StatsNode, StatsSource, Stats, StatsEvent, node_name, source_name, find_node, find_source,
  build_event, stats_event_inc, stats_event_dec,
}

-- The value of a name of a source, or of a global name.
abbrev pub View : Type 0
View = Option Bytes → Bytes → Option Bytes

abbrev pub value_in : Option StatsNode → Option Bytes
value_in none = none
value_in (some n) = some n.value

abbrev pub value_at : Tree StatsNode → Bytes → Option Bytes
value_at t name = value_in (find_node name t)

abbrev pub value_under : Option StatsSource → Bytes → Option Bytes
value_under none name = none
value_under (some snode) name = value_at snode.stats_tree name

abbrev pub value_of : Stats → View
value_of s none name = value_at s.global_tree name
value_of s (some source) name = value_under (find_source source s.source_tree) name

abbrev pub same_source : Option Bytes → Option Bytes → Bool
same_source none none = true
same_source (some a) (some b) = str_eq a b
same_source _ _ = false

-- A value is the new value of the name, and no value takes the name away; without a name, the source.
abbrev pub heard_name : Option Bytes → Option Bytes → Bytes → Option Bytes → Option Bytes
heard_name (some m) value name old = if str_eq m name then value else old
heard_name none none name old = none
heard_name none (some value) name old = old

abbrev pub hear : StatsEvent → View → View
hear e v source name =
    if same_source e.source source
    then heard_name e.name e.value name (v source name)
    else v source name

abbrev pub hear_all : List StatsEvent → View → View
hear_all [] v = v
hear_all (e ∷ events) v = hear_all events (hear e v)

-- An event that `stats_event`, with or without a value, `stats_event_inc` or `stats_event_dec` makes.
pub data IsPlain : StatsEvent → Type 0 where
  set_plain :
      (source : Option Bytes) (name value : Bytes)
      → IsPlain (build_event source (some name) (some value))
  remove_plain : (source name : Option Bytes) → IsPlain (build_event source name none)
  inc_plain : (source : Option Bytes) (name : Bytes) → IsPlain (stats_event_inc source (some name))
  dec_plain : (source : Option Bytes) (name : Bytes) → IsPlain (stats_event_dec source (some name))

-- Every tree is ordered.
pub record IsStats (s : Stats) : Type 0 where
  pub global_ordered : IsOrdered node_name s.global_tree
  pub sources_ordered : IsOrdered source_name s.source_tree
  pub each_ordered :
      (source : Bytes) (snode : StatsSource)
      → find_source source s.source_tree ≡ some snode
      → IsOrdered node_name snode.stats_tree
