-- ===== src/Stats/Thread.antt =====
-- The queues of `_stats_thread` and of the listeners of src/stats.c, which is run by turns of the
-- threads.
use icecast_server.Prelude.{Option, none, some, List, [], ◌∷◌, ◌++◌, ◌==◌, if◌then◌else◌, ℕ, map}
use icecast_server.Trees.{leaf, elements}
use icecast_server.Stats.Records.{StatsSource, Stats, StatsEvent, copy_event, make_event_from_node}
use icecast_server.Stats.Changes.{Library}
use icecast_server.Stats.Process.{process_event}

-- `event_listener_t`, with an identity, and with the events that were taken out of its queue to be
-- sent.
pub record EventListener : Type 0 where
  pub id : ℕ
  pub sent : List StatsEvent
  pub queue : List StatsEvent

pub record StatsThread : Type 0 where
  pub stats : Stats
  pub global_event_queue : List StatsEvent
  pub event_listeners : List EventListener

-- `queue_global_event`
unfoldable pub queue_global_event : StatsEvent → StatsThread → StatsThread
queue_global_event e w = record w { global_event_queue = w.global_event_queue ++ e ∷ [] }

-- `_add_event_to_queue` of a copy
unfoldable pub add_copy : StatsEvent → EventListener → EventListener
unfolding copy_event
add_copy e l = record l { queue = l.queue ++ copy_event e ∷ [] }

-- After an event was processed.
unfoldable pub spread :
    List StatsEvent → StatsThread → Option (Stats × StatsEvent) → Option StatsThread
unfolding add_copy
spread rest w none = none
spread rest w (some (stats, e)) = some (record {
  stats = stats;
  global_event_queue = rest;
  event_listeners = map (add_copy e) w.event_listeners;
})

unfoldable pub round_with : Library → StatsThread → List StatsEvent → Option StatsThread
unfolding spread process_event
round_with lib w [] = some w
round_with lib w (e ∷ rest) = spread rest w (process_event lib e w.stats)

-- A round of the loop of `_stats_thread`.
unfoldable pub stats_round : Library → StatsThread → Option StatsThread
unfolding round_with
stats_round lib w = round_with lib w w.global_event_queue

unfoldable pub source_events : StatsSource → List StatsEvent
unfolding elements make_event_from_node
source_events snode = map (make_event_from_node (some snode.source)) (elements snode.stats_tree)

unfoldable pub sources_events : List StatsSource → List StatsEvent
unfolding source_events
sources_events [] = []
sources_events (snode ∷ snodes) = source_events snode ++ sources_events snodes

-- The current statistics, as `_register_listener` queues them.
unfoldable pub current_events : Stats → List StatsEvent
unfolding elements make_event_from_node sources_events
current_events s =
    map (make_event_from_node none) (elements s.global_tree)
    ++ sources_events (elements s.source_tree)

-- `_register_listener`
unfoldable pub register_listener : ℕ → StatsThread → StatsThread
unfolding current_events
register_listener id w = record w {
  event_listeners =
      record { id = id; sent = []; queue = current_events w.stats } ∷ w.event_listeners;
}

-- `_get_event_from_queue`, and the event is sent.
unfoldable pub take_event : List StatsEvent → EventListener → EventListener
take_event [] l = l
take_event (e ∷ rest) l = record l { sent = l.sent ++ e ∷ []; queue = rest }

-- A round of the loop of `stats_connection`.
unfoldable pub listener_round : ℕ → List EventListener → List EventListener
unfolding take_event
listener_round id [] = []
listener_round id (l ∷ listeners) =
    let rest = listener_round id listeners in
    if l.id == id then take_event l.queue l ∷ listeners else l ∷ rest

-- `_unregister_listener`
unfoldable pub unregister_listener : ℕ → List EventListener → List EventListener
unregister_listener id [] = []
unregister_listener id (l ∷ listeners) =
    let rest = unregister_listener id listeners in if l.id == id then listeners else l ∷ rest

-- What a thread does in its turn.
pub data Turn : Type 0 where
  emits : StatsEvent → Turn
  processes : Turn
  registers sends unregisters : ℕ → Turn

unfoldable pub turn : Library → Turn → StatsThread → Option StatsThread
unfolding queue_global_event stats_round register_listener listener_round unregister_listener
turn lib (emits e) w = some (queue_global_event e w)
turn lib processes w = stats_round lib w
turn lib (registers id) w = some (register_listener id w)
turn lib (sends id) w = some (record w { event_listeners = listener_round id w.event_listeners })
turn lib (unregisters id) w =
    some (record w { event_listeners = unregister_listener id w.event_listeners })

unfoldable pub turns : Library → List Turn → StatsThread → Option StatsThread
unfolding turn
turns lib [] w = some w
turns lib (t ∷ more) w = elim (turn lib t w) [ none ↦ none | some w' ↦ turns lib more w' ]

-- `stats_initialize`
abbrev pub stats_initialize : StatsThread
stats_initialize = record {
  stats = record { global_tree = leaf; source_tree = leaf };
  global_event_queue = [];
  event_listeners = [];
}
