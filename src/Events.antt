-- ===== src/Events.antt =====
-- Events: src/event.c.
--
-- A registration is what its trigger is and which handler it has; a chain of them is a list. The
-- handlers are programs, requests and log entries of other files: `Handled` records that one was
-- called. The event thread and the emitters are steps under the event lock. Reference counts are left
-- out, as are the fields of an event that only the handlers read.
pub mod Queue
pub mod Registered
pub mod Dispatch
use icecast_server.Prelude.{
  ℕ, zero, suc, ◌+◌, ◌-◌, ◌*◌, ◌/◌, ◌%◌, ◌^◌, ◌≤◌, ◌<◌, ◌≡◌, refl, sym, ap, ◌∙◌, ◌≢◌, ◌↔◌, ◌⊎◌, inl,
  inr, Bool, true, false, not, ◌&&◌, ◌||◌, Option, none, some, List, [], ◌∷◌, ◌++◌, arith, ltb, leb,
  ◌==◌, if◌then◌else◌, Bool-cases, Bytes, str_eq, length, drop,
}
use icecast_server.Mounts.{
  MountProxy, MountType, normal_mount, default_mount, config_find_mount, find_typed,
}

pub record Registration : Type 0 where
  pub trigger : Bytes
  -- `er->emit`, if it is set
  pub handler : Option ℕ

-- `reglist` has 8 places, of which the first ones are taken.
pub record Event : Type 0 where
  pub trigger : Bytes
  pub uri : Option Bytes
  pub reglist : List (List Registration)

pub record Handled : Type 0 where
  pub handler : ℕ
  pub event : Event

-- The state that `event_lock` guards, the event thread, and what was handled.
pub record Events : Type 0 where
  pub queue : List Event
  pub running : Bool
  -- the thread has not left its loop
  pub thread : Bool
  pub log : List Handled

abbrev pub max_reglists : ℕ
max_reglists = 8

-- `event_push_reglist`: NULL is the empty chain.
unfoldable pub push_reglist : Event → List Registration → Event
push_reglist event [] = event
push_reglist event (r ∷ rs) =
    if ltb (length event.reglist) max_reglists
    then record event { reglist = event.reglist ++ (r ∷ rs) ∷ [] }
    else event

-- `event_push`: an event that finds the queue full is dropped.
unfoldable pub push : List Event → Event → List Event
push queue event = if length queue == 128 then queue else queue ++ event ∷ []

-- `_try_event`
unfoldable pub try_event : Event → Registration → List Handled
unfolding str_eq
try_event event r = elim r.handler [
  | none ↦ []
  | some h ↦
      if str_eq r.trigger event.trigger then record { handler = h; event = event } ∷ [] else []
]

-- `_try_registrations`
unfoldable pub try_registrations : Event → List Registration → List Handled
unfolding try_event
try_registrations event [] = []
try_registrations event (r ∷ rs) = try_event event r ++ try_registrations event rs

-- The loop over `event->reglist`
unfoldable pub try_all : Event → List (List Registration) → List Handled
unfolding try_registrations
try_all event [] = []
try_all event (rs ∷ lists) = try_registrations event rs ++ try_all event lists

unfoldable pub handle_event : Event → List Handled
unfolding try_all
handle_event event = try_all event event.reglist

-- One round of `event_run_thread`, which leaves its loop after a round that read `event_running` as 0.
unfoldable pub thread_round : Events → Events
unfolding handle_event
thread_round s =
    if s.thread
    then (elim s.queue [
      | [] ↦ record s { thread = s.running }
      | event ∷ rest ↦ record s {
        queue = rest;
        thread = s.running;
        log = s.log ++ handle_event event;
      }
    ])
    else s

-- `event_emit`
unfoldable pub emit : Event → Events → Events
unfolding push
emit event s = record s { queue = push s.queue event }

-- `event_shutdown`, up to the join of the thread, and after it
unfoldable pub stop : Events → Events
stop s = if s.running then record s { running = false } else s

unfoldable pub drop_queue : Events → Events
drop_queue s = record s { queue = [] }

-- What `event_emit_clientevent` reads of the configuration.
pub record EventConfig : Type 0 where
  pub event : List Registration
  pub mounts : List MountProxy
  -- `mount->event`
  pub mount_event : MountProxy → List Registration

abbrev pub is_type : MountType → MountType → Bool
is_type normal_mount normal_mount = true
is_type default_mount default_mount = true
is_type _ _ = false

-- `if (mount && mount->mounttype == type) event_push_reglist(event, mount->event)`
unfoldable pub push_mount : EventConfig → MountType → Option MountProxy → Event → Event
unfolding push_reglist
push_mount config type none event = event
push_mount config type (some m) event =
    if is_type m.mounttype type then push_reglist event (config.mount_event m) else event

module _ (fnmatch : Bytes → Bytes → Bool) where
  -- The event that `event_emit_clientevent` makes.
  unfoldable pub client_event : EventConfig → Bytes → Option Bytes → Event
  unfolding push_reglist push_mount config_find_mount find_typed
  client_event config trigger uri =
      let event : Event = record { trigger = trigger; uri = uri; reglist = [] } in
      let with_global = push_reglist event config.event in
      let with_normal =
        push_mount config normal_mount (config_find_mount fnmatch uri config.mounts) with_global in
      push_mount config default_mount (find_typed fnmatch default_mount uri config.mounts)
        with_normal

  -- `if (event->reglist[0] == NULL)`
  unfoldable pub emit_clientevent : EventConfig → Bytes → Option Bytes → Events → Events
  unfolding client_event emit
  emit_clientevent config trigger uri s =
      let event = client_event config trigger uri in
      if length event.reglist == 0 then s else emit event s
