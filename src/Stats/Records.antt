-- ===== src/Stats/Records.antt =====
-- The nodes, the sources and the events of src/stats.h, and the functions of src/stats.c that make an
-- event.
use icecast_server.Prelude.{Bool, false, Option, none, some, [], if◌then◌else◌, Bytes}
use icecast_server.Trees.{Tree, tree_search}

-- `stats_node_t`
pub record StatsNode : Type 0 where
  pub name : Bytes
  pub value : Bytes
  pub hidden : Bool

-- `stats_source_t`
pub record StatsSource : Type 0 where
  pub source : Bytes
  pub hidden : Bool
  pub stats_tree : Tree StatsNode

-- `stats_t`
pub record Stats : Type 0 where
  pub global_tree : Tree StatsNode
  pub source_tree : Tree StatsSource

pub data StatsAction : Type 0 where
  set_action inc_action dec_action add_action sub_action remove_action hidden_action : StatsAction

-- `stats_event_t`
pub record StatsEvent : Type 0 where
  pub source : Option Bytes
  pub name : Option Bytes
  pub value : Option Bytes
  pub hidden : Bool
  pub action : StatsAction

abbrev pub node_name : StatsNode → Bytes
node_name n = n.name

abbrev pub source_name : StatsSource → Bytes
source_name s = s.source

-- `_find_node`
unfoldable pub find_node : Bytes → Tree StatsNode → Option StatsNode
unfolding tree_search
find_node name t = tree_search node_name name t

-- `_find_source`
unfoldable pub find_source : Bytes → Tree StatsSource → Option StatsSource
unfolding tree_search
find_source name t = tree_search source_name name t

abbrev action_of : Option Bytes → StatsAction
action_of none = remove_action
action_of (some value) = set_action

-- `build_event`
unfoldable pub build_event : Option Bytes → Option Bytes → Option Bytes → StatsEvent
build_event source name value = record {
  source = source;
  name = name;
  value = value;
  hidden = false;
  action = action_of value;
}

-- `stats_event_inc`
unfoldable pub stats_event_inc : Option Bytes → Option Bytes → StatsEvent
unfolding build_event
stats_event_inc source name = record (build_event source name none) { action = inc_action }

-- `stats_event_dec`
unfoldable pub stats_event_dec : Option Bytes → Option Bytes → StatsEvent
unfolding build_event
stats_event_dec source name = record (build_event source name none) { action = dec_action }

-- `stats_event_hidden`
unfoldable pub stats_event_hidden : Option Bytes → Option Bytes → Bool → StatsEvent
unfolding build_event
stats_event_hidden source name hidden =
    record (build_event source name (if hidden then some [] else none)) { action = hidden_action }

-- `_copy_event`, which does not copy the action: `calloc` leaves 0.
unfoldable pub copy_event : StatsEvent → StatsEvent
copy_event e = record e { action = set_action }

-- `_make_event_from_node`
unfoldable pub make_event_from_node : Option Bytes → StatsNode → StatsEvent
make_event_from_node source n = record {
  source = source;
  name = some n.name;
  value = some n.value;
  hidden = n.hidden;
  action = set_action;
}
