-- ===== src/Stats/Process.antt =====
-- What an event does to the statistics: `process_source_event` and what calls it in src/stats.c.
-- `none` is a NULL that `strdup`, `strcmp` or `atoi` is given.
use icecast_server.Prelude.{Bool, Option, none, some, if◌then◌else◌, Bytes}
use icecast_server.Trees.{Tree, leaf, replace}
use icecast_server.Stats.Records.{
  StatsNode, StatsSource, Stats, StatsAction, StatsEvent, source_name, find_node, find_source,
  remove_action, hidden_action,
}
use icecast_server.Stats.Changes.{
  Library, has_value, is_hidden_action, is_remove, process_global, process_source_node,
}

unfoldable pub put_tree :
    Tree StatsSource
    → StatsSource
    → Option (Tree StatsNode × StatsEvent)
    → Option (Tree StatsSource × StatsEvent)
unfolding replace
put_tree sources snode none = none
put_tree sources snode (some (t, e)) =
    some (replace source_name (record snode { stats_tree = t }) sources, e)

-- The loop over the nodes of a source that is hidden or shown.
unfoldable pub hide_all : Bool → Tree StatsNode → Tree StatsNode
hide_all hidden leaf = leaf
hide_all hidden (Tree.node left n right) =
    Tree.node (hide_all hidden left) (record n { hidden = hidden }) (hide_all hidden right)

unfoldable pub hide_source : StatsSource → Bool → StatsSource
unfolding hide_all
hide_source snode hidden = record snode {
  hidden = hidden;
  stats_tree = hide_all hidden snode.stats_tree;
}

-- An event for the whole source.
unfoldable pub process_whole :
    Library → StatsAction → StatsEvent → Tree StatsSource → StatsSource → Tree StatsSource
unfolding replace hide_source
process_whole lib hidden_action e sources snode =
    replace source_name (hide_source snode (has_value e.value)) sources
process_whole lib remove_action e sources snode = lib.sources.delete snode sources
process_whole lib _ e sources snode = sources

-- The source is there.
unfoldable pub process_in_source :
    Library
    → StatsEvent
    → Tree StatsSource
    → StatsSource
    → Option Bytes
    → Option (Tree StatsSource × StatsEvent)
unfolding process_source_node find_node put_tree process_whole
process_in_source lib e sources snode none = some (process_whole lib e.action e sources snode, e)
process_in_source lib e sources snode (some name) =
    put_tree sources snode (
      process_source_node lib e snode.hidden snode.stats_tree name
        (find_node name snode.stats_tree))

abbrev pub new_source : Bytes → StatsAction → StatsSource
new_source source action = record {
  source = source;
  hidden = is_hidden_action action;
  stats_tree = leaf;
}

unfoldable pub process_source_found :
    Library
    → StatsEvent
    → Tree StatsSource
    → Bytes
    → Option StatsSource
    → Option (Tree StatsSource × StatsEvent)
unfolding process_in_source
process_source_found lib e sources source (some snode) =
    process_in_source lib e sources snode e.name
process_source_found lib e sources source none =
    let snode = new_source source e.action in
    if is_remove e.action
    then some (sources, e)
    else process_in_source lib e (lib.sources.insert snode sources) snode e.name

-- `process_source_event`, for the tree `_stats.source_tree`
unfoldable pub process_source :
    Library → StatsEvent → Tree StatsSource → Bytes → Option (Tree StatsSource × StatsEvent)
unfolding process_source_found find_source
process_source lib e sources source =
    process_source_found lib e sources source (find_source source sources)

unfoldable pub with_global :
    Stats → Option (Tree StatsNode × StatsEvent) → Option (Stats × StatsEvent)
with_global s none = none
with_global s (some (t, e)) = some (record s { global_tree = t }, e)

unfoldable pub with_sources :
    Stats → Option (Tree StatsSource × StatsEvent) → Option (Stats × StatsEvent)
with_sources s none = none
with_sources s (some (t, e)) = some (record s { source_tree = t }, e)

-- `if (event->source == NULL)` of `_stats_thread`
unfoldable pub process_for :
    Library → StatsEvent → Stats → Option Bytes → Option (Stats × StatsEvent)
unfolding process_global process_source with_global with_sources
process_for lib e s none = with_global s (process_global lib e s.global_tree e.name)
process_for lib e s (some source) = with_sources s (process_source lib e s.source_tree source)

unfoldable pub process_event : Library → StatsEvent → Stats → Option (Stats × StatsEvent)
unfolding process_for
process_event lib e s = process_for lib e s e.source
