-- ===== src/Stats/Changes.antt =====
-- What an event does to the nodes of one tree: `modify_node_event`, `process_global_event` and the
-- part for a node of `process_source_event` of src/stats.c. `none` is a NULL that `strdup`, `strcmp`
-- or `atoi` is given.
use icecast_server.Prelude.{
  Bool, true, false, Option, none, some, if◌then◌else◌, Bytes, take, ℤ, pos, negsuc, ◌+ℤ◌, negate,
}
use icecast_server.Trees.{Tree, replace, Avl}
use icecast_server.Stats.Records.{
  StatsNode, StatsAction, StatsEvent, node_name, source_name, find_node, set_action, inc_action,
  dec_action, add_action, sub_action, remove_action, hidden_action,
}

-- `atoi`, `atoll` and what `printf` makes of a number, and the two trees.
pub record Library : Type 0 where
  pub atoi : Bytes → ℤ
  pub atoll : Bytes → ℤ
  pub printed : ℤ → Bytes
  pub nodes : Avl node_name
  pub sources : Avl source_name

-- `event->value` is not NULL.
abbrev pub has_value : Option Bytes → Bool
has_value none = false
has_value (some value) = true

abbrev pub or_else : Option Bytes → Bytes → Option Bytes
or_else none text = some text
or_else (some value) text = some value

abbrev pub is_remove : StatsAction → Bool
is_remove remove_action = true
is_remove _ = false

abbrev pub is_hidden_action : StatsAction → Bool
is_hidden_action hidden_action = true
is_hidden_action _ = false

-- The number that the `switch` of `modify_node_event` computes.
unfoldable pub counted : Library → StatsAction → Bytes → Option Bytes → Option ℤ
counted lib inc_action old value = some (lib.atoi old +ℤ pos 1)
counted lib dec_action old value = some (lib.atoi old +ℤ negsuc 0)
counted lib add_action old (some value) = some (lib.atoi old +ℤ lib.atoi value)
counted lib add_action old none = none
counted lib sub_action old (some value) = some (lib.atoll old +ℤ negate (lib.atoll value))
counted lib sub_action old none = none
counted lib _ old value = some (pos 0)

unfoldable pub set_value : StatsNode → StatsEvent → Option Bytes → Option (StatsNode × StatsEvent)
set_value n e none = none
set_value n e (some value) = some (record n { value = value }, e)

-- `snprintf` of at most 15 bytes; an event without a value is given it.
unfoldable pub count_value :
    Library → StatsNode → StatsEvent → Option ℤ → Option (StatsNode × StatsEvent)
count_value lib n e none = none
count_value lib n e (some number) =
    let text = take 15 (lib.printed number) in
    some (record n { value = text }, record e { value = or_else e.value text })

unfoldable pub modify_by :
    Library → StatsAction → StatsNode → StatsEvent → Option (StatsNode × StatsEvent)
unfolding counted set_value count_value
modify_by lib hidden_action n e = some (record n { hidden = has_value e.value }, e)
modify_by lib set_action n e = set_value n e e.value
modify_by lib action n e = count_value lib n e (counted lib action n.value e.value)

-- `modify_node_event`
unfoldable pub modify_node_event :
    Library → StatsNode → StatsEvent → Option (StatsNode × StatsEvent)
unfolding modify_by
modify_node_event lib n e = modify_by lib e.action n e

-- The tree of a level with what the event has become.
unfoldable pub put_modified :
    Tree StatsNode → Option (StatsNode × StatsEvent) → Option (Tree StatsNode × StatsEvent)
unfolding replace
put_modified t none = none
put_modified t (some (n, e)) = some (replace node_name n t, e)

-- A node that is there.
unfoldable pub change_node :
    Library → StatsEvent → Tree StatsNode → StatsNode → Option (Tree StatsNode × StatsEvent)
unfolding modify_node_event put_modified
change_node lib e t n =
    if is_remove e.action
    then some (lib.nodes.delete n t, e)
    else put_modified t (modify_node_event lib n e)

-- `strdup(event->value)` for a new global node.
unfoldable pub add_global :
    Library
    → StatsEvent
    → Tree StatsNode
    → Bytes
    → Option Bytes
    → Option (Tree StatsNode × StatsEvent)
add_global lib e t name none = none
add_global lib e t name (some value) =
    some (lib.nodes.insert (record { name = name; value = value; hidden = false }) t, e)

unfoldable pub process_global_node :
    Library
    → StatsEvent
    → Tree StatsNode
    → Bytes
    → Option StatsNode
    → Option (Tree StatsNode × StatsEvent)
unfolding change_node add_global
process_global_node lib e t name (some n) = change_node lib e t n
process_global_node lib e t name none =
    if is_remove e.action then some (t, e) else add_global lib e t name e.value

-- `process_global_event`, for the tree `_stats.global_tree`
unfoldable pub process_global :
    Library → StatsEvent → Tree StatsNode → Option Bytes → Option (Tree StatsNode × StatsEvent)
unfolding process_global_node find_node
process_global lib e t none = none
process_global lib e t (some name) = process_global_node lib e t name (find_node name t)

-- A new node of a source, which is made only for a value.
unfoldable pub add_to_source :
    Library
    → StatsEvent
    → Bool
    → Tree StatsNode
    → Bytes
    → Option Bytes
    → Option (Tree StatsNode × StatsEvent)
add_to_source lib e hidden t name none = some (t, e)
add_to_source lib e hidden t name (some value) =
    some (lib.nodes.insert (record { name = name; value = value; hidden = hidden }) t, e)

unfoldable pub process_source_node :
    Library
    → StatsEvent
    → Bool
    → Tree StatsNode
    → Bytes
    → Option StatsNode
    → Option (Tree StatsNode × StatsEvent)
unfolding change_node add_to_source
process_source_node lib e hidden t name (some n) = change_node lib e t n
process_source_node lib e hidden t name none =
    if is_remove e.action then some (t, e) else add_to_source lib e hidden t name e.value
