-- ===== src/Stats/Listeners.antt =====
-- The listeners through the turns of the threads.
use icecast_server.Prelude.{
  subst, ◌≡◌, refl, sym, ap, ◌∙◌, Option, none, some, List, [], ◌∷◌, ◌++◌, ◌==◌, if◌then◌else◌,
  Bytes, ℕ, map, All, All-append, by_test, append_assoc,
}
use icecast_server.Stats.Records.{StatsSource, find_source, Stats, StatsEvent, copy_event}
use icecast_server.Stats.Changes.{Library}
use icecast_server.Stats.Process.{process_event}
use icecast_server.Trees.{tree_search}
use icecast_server.Stats.Current.{silence, IsInformed, current_events-says}
use icecast_server.Stats.Walk.{hear_all-append}
use icecast_server.Stats.Thread.{
  EventListener, StatsThread, Turn, emits, processes, registers, sends, unregisters,
  queue_global_event, add_copy, spread, round_with, stats_round, register_listener, take_event,
  listener_round, unregister_listener, turn, stats_initialize,
}
use icecast_server.Stats.View.{
  View, value_of, same_source, heard_name, hear, hear_all, IsPlain, IsStats,
}
use icecast_server.Stats.Processed.{IsFault, IsProcessed}
use icecast_server.Stats.Sources.{process_event-IsProcessed}

pub record IsThread (w : StatsThread) : Type 0 where
  pub stats : IsStats w.stats
  pub plain : All IsPlain w.global_event_queue
  pub informed : All (IsInformed w.stats) w.event_listeners

-- The event at the head of the queue is a fault.
abbrev pub StopsAt : Stats → List StatsEvent → Type 0
StopsAt s [] = ⊥
StopsAt s (e ∷ events) = IsFault e s

-- What a turn can leave: a good state, or it has stopped on a fault.
abbrev pub TurnDone : Turn → StatsThread → Option StatsThread → Type 0
TurnDone processes w none = StopsAt w.stats w.global_event_queue
TurnDone _ w none = ⊥
TurnDone _ w (some w') = IsThread w'

abbrev pub IfGoesOn : Option StatsThread → (StatsThread → Type 0) → Type 0
IfGoesOn none P = Unit
IfGoesOn (some w) P = P w

-- Every turn is so, up to the first that stops.
abbrev pub RunDone : Library → List Turn → StatsThread → Type 0
RunDone lib [] w = IsThread w
RunDone lib (t ∷ ts) w =
    TurnDone t w (turn lib t w) × IfGoesOn (turn lib t w) (λ w'. RunDone lib ts w')

-- An event that was processed reaches a listener.
add_copy-IsInformed :
    (s s' : Stats) (e' : StatsEvent) (l : EventListener)
    → ((source : Option Bytes) (name : Bytes)
        → value_of s' source name ≡ hear e' (value_of s) source name)
    → IsInformed s l
    → IsInformed s' (add_copy e' l)
unfolding add_copy copy_event
add_copy-IsInformed s s' e' l p i source name =
    ap (λ (x : List StatsEvent). hear_all x silence source name)
      (sym (append_assoc l.sent l.queue (copy_event e' ∷ [])))
    ∙ ap (λ (f : View). f source name)
        (hear_all-append (l.sent ++ l.queue) (copy_event e' ∷ []) silence)
    ∙ ap
        (λ (x : Option Bytes).
          if same_source e'.source source then heard_name e'.name e'.value name x else x)
        (i source name)
    ∙ sym (p source name)

add_copies :
    (s s' : Stats) (e' : StatsEvent) (ls : List EventListener)
    → ((source : Option Bytes) (name : Bytes)
        → value_of s' source name ≡ hear e' (value_of s) source name)
    → All (IsInformed s) ls
    → All (IsInformed s') (map (add_copy e') ls)
add_copies s s' e' [] p a = tt
add_copies s s' e' (l ∷ ls) p (i, a) =
    (add_copy-IsInformed s s' e' l p i, add_copies s s' e' ls p a)

spread-TurnDone :
    (e : StatsEvent) (rest : List StatsEvent) (w : StatsThread) (r : Option (Stats × StatsEvent))
    → w.global_event_queue ≡ e ∷ rest
    → All IsPlain rest
    → All (IsInformed w.stats) w.event_listeners
    → IsProcessed e w.stats r
    → TurnDone processes w (spread rest w r)
unfolding spread
spread-TurnDone e rest w none q a l p = subst (StopsAt w.stats) (sym q) p
spread-TurnDone e rest w (some (s', e')) q a l (i, p) = record {
  stats = i;
  plain = a;
  informed = add_copies w.stats s' e' w.event_listeners p l;
}

round-TurnDone :
    (lib : Library) (w : StatsThread) (queue : List StatsEvent)
    → w.global_event_queue ≡ queue
    → IsThread w
    → All IsPlain queue
    → TurnDone processes w (round_with lib w queue)
unfolding round_with
round-TurnDone lib w [] q i a = i
round-TurnDone lib w (e ∷ rest) q i (p, a) =
    spread-TurnDone e rest w (process_event lib e w.stats) q a i.informed
      (process_event-IsProcessed lib e w.stats i.stats p)

take_event-IsInformed :
    (s : Stats) (queue : List StatsEvent) (l : EventListener)
    → l.queue ≡ queue
    → IsInformed s l
    → IsInformed s (take_event queue l)
unfolding take_event
take_event-IsInformed s [] l q i source name = i source name
take_event-IsInformed s (e ∷ rest) l q i source name =
    ap (λ (x : List StatsEvent). hear_all x silence source name)
      (append_assoc l.sent (e ∷ []) rest ∙ ap (λ (x : List StatsEvent). l.sent ++ x) (sym q))
    ∙ i source name

listener_round-IsInformed :
    (s : Stats) (id : ℕ) (ls : List EventListener)
    → All (IsInformed s) ls
    → All (IsInformed s) (listener_round id ls)
unfolding listener_round
listener_round-IsInformed s id [] a = tt
listener_round-IsInformed s id (l ∷ ls) (i, a) =
    by_test (All (IsInformed s)) (l.id == id) _ _
      (λ e. (take_event-IsInformed s l.queue l refl i, a))
      (λ e. (i, listener_round-IsInformed s id ls a))

unregister_listener-IsInformed :
    (s : Stats) (id : ℕ) (ls : List EventListener)
    → All (IsInformed s) ls
    → All (IsInformed s) (unregister_listener id ls)
unfolding unregister_listener
unregister_listener-IsInformed s id [] a = tt
unregister_listener-IsInformed s id (l ∷ ls) (i, a) =
    by_test (All (IsInformed s)) (l.id == id) _ _ (λ e. a)
      (λ e. (i, unregister_listener-IsInformed s id ls a))

-- The events that the threads emit are plain.
abbrev pub EmitsPlain : Turn → Type 0
EmitsPlain (emits e) = IsPlain e
EmitsPlain _ = Unit

turn-TurnDone :
    (lib : Library) (t : Turn) (w : StatsThread)
    → EmitsPlain t
    → IsThread w
    → TurnDone t w (turn lib t w)
unfolding turn stats_round queue_global_event register_listener
turn-TurnDone lib (emits e) w p i = record {
  stats = i.stats;
  plain = All-append IsPlain w.global_event_queue (e ∷ []) i.plain (p, tt);
  informed = i.informed;
}
turn-TurnDone lib processes w p i = round-TurnDone lib w w.global_event_queue refl i i.plain
turn-TurnDone lib (registers id) w p i = record {
  stats = i.stats;
  plain = i.plain;
  informed = (current_events-says w.stats i.stats, i.informed);
}
turn-TurnDone lib (sends id) w p i = record {
  stats = i.stats;
  plain = i.plain;
  informed = listener_round-IsInformed w.stats id w.event_listeners i.informed;
}
turn-TurnDone lib (unregisters id) w p i = record {
  stats = i.stats;
  plain = i.plain;
  informed = unregister_listener-IsInformed w.stats id w.event_listeners i.informed;
}

run-RunDone :
    (lib : Library) (ts : List Turn) (w : StatsThread)
    → All EmitsPlain ts
    → IsThread w
    → RunDone lib ts w
run-RunDone lib [] w a i = i
run-RunDone lib (t ∷ ts) w (p, a) i = (
  turn-TurnDone lib t w p i,
  after t (turn lib t w) (turn-TurnDone lib t w p i) (λ w'. run-RunDone lib ts w' a),
)
  where
    after :
        (t : Turn) (r : Option StatsThread)
        → TurnDone t w r
        → ((w' : StatsThread) → IsThread w' → RunDone lib ts w')
        → IfGoesOn r (λ w'. RunDone lib ts w')
    after t none i k = tt
    after t (some w') i k = k w' i

-- However the threads take turns from the start, where what is emitted are events that stats_event,
-- with or without a value, stats_event_inc and stats_event_dec make, after every turn the trees are
-- ordered, and for every registered listener, whenever it registered, the events that were taken out
-- of its queue to be sent and then those that wait make up, for one who takes each value as the new
-- one and a missing value as a removal, exactly the values of the statistics; and a turn stops on a
-- NULL only where the event that is processed is a global one without a value and its name, if it has
-- one, has no value.
pub stats_initialize-RunDone :
    (lib : Library) (ts : List Turn) → All EmitsPlain ts → RunDone lib ts stats_initialize
unfolding find_source tree_search
stats_initialize-RunDone lib ts a = run-RunDone lib ts stats_initialize a (record {
  stats = record {
    global_ordered = tt;
    sources_ordered = tt;
    each_ordered = λ source snode h. absurd (no snode h);
  };
  plain = tt;
  informed = tt;
})
  where
    no : (snode : StatsSource) → ¬ (none ≡ some snode)
    no snode h = cc
