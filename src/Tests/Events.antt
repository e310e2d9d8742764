-- ===== src/Tests/Events.antt =====
-- Tests of `Events`.
use icecast_server.Prelude.{
  str_eq, length, codes, Bytes, ◌≤◌, ◌≡◌, refl, true, none, some, List, [], ◌∷◌, arith,
}
use icecast_server.Mounts.{normal_mount, config_find_mount}
use icecast_server.Events.{Registration, Event, Events, EventConfig, client_event, emit_clientevent}
use icecast_server.Events.Queue.{
  Action, emits, round, stops, run, Live, Handles, run-within, run-Handles,
}
use icecast_server.Events.Registered.{registrations, handlers_for, calls}
use icecast_server.Events.Dispatch.{HandledAfter, emit_clientevent-handled}

abbrev trigger : Bytes
trigger = codes "source-connect"

abbrev on_connect : Registration
on_connect = record { trigger = trigger; handler = some 1 }

abbrev on_disconnect : Registration
on_disconnect = record { trigger = codes "source-disconnect"; handler = some 2 }

abbrev of_mount : Registration
of_mount = record { trigger = trigger; handler = some 3 }

abbrev config : EventConfig
config = record {
  event = on_connect ∷ on_disconnect ∷ [];
  mounts =
      record { mounttype = normal_mount; mountname = some (codes "/a"); fallback_mount = none }
      ∷ [];
  mount_event = λ m. of_mount ∷ [];
}

abbrev waiting : Event
waiting = record { trigger = trigger; uri = none; reglist = (of_mount ∷ []) ∷ [] }

abbrev started : Events
started = record { queue = waiting ∷ []; running = true; thread = true; log = [] }

started-Live : Live started
started-Live = record { running = refl; thread = refl }

abbrev acts : List Action
acts = round ∷ emits waiting ∷ round ∷ []

leads_to : handlers_for trigger (registrations str_eq config (some (codes "/a"))) ≡ 1 ∷ 3 ∷ []
unfolding str_eq config_find_mount
leads_to = refl

run-within_example : length (run (stops ∷ acts) started).queue ≤ 128
run-within_example = run-within (stops ∷ acts) started (omega arith)

run-Handles_example : Handles acts started (waiting ∷ [])
run-Handles_example = run-Handles acts started (waiting ∷ []) [] started-Live tt refl (omega arith)

emit_clientevent-handled_example :
    HandledAfter acts started (emit_clientevent str_eq config trigger (some (codes "/a")) started) (
      calls
        (client_event str_eq config trigger (some (codes "/a")))
        (handlers_for trigger (registrations str_eq config (some (codes "/a")))))
emit_clientevent-handled_example =
    emit_clientevent-handled str_eq config trigger (some (codes "/a")) acts started started-Live tt
      (omega arith) (omega arith)
