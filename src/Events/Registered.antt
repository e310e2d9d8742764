-- ===== src/Events/Registered.antt =====
-- The registrations of a client's event and the handlers that they have.
use icecast_server.Prelude.{
  length-append, lt→ltb, append_assoc, append-nil, suc, ◌≤◌, ◌<◌, ◌≡◌, refl, sym, ap, ◌∙◌, inl, inr,
  Bool, Option, none, some, List, [], ◌∷◌, ◌++◌, arith, if◌then◌else◌, Bool-cases, ℕ,
}
use icecast_server.Mounts.{
  MountProxy, MountType, normal_mount, default_mount, config_find_mount, find_typed,
}
use icecast_server.Events.{
  str_eq, length, Bytes, Registration, Event, Handled, EventConfig, push_reglist, try_event,
  try_registrations, try_all, handle_event, is_type, push_mount, client_event,
}

abbrev pub handlers_of : Bytes → Registration → List ℕ
handlers_of trigger r = elim r.handler [
  | none ↦ []
  | some h ↦ if str_eq r.trigger trigger then h ∷ [] else []
]

-- The handlers of the registrations for a trigger.
abbrev pub handlers_for : Bytes → List Registration → List ℕ
handlers_for trigger [] = []
handlers_for trigger (r ∷ rs) = handlers_of trigger r ++ handlers_for trigger rs

abbrev pub calls : Event → List ℕ → List Handled
calls event [] = []
calls event (h ∷ hs) = record { handler = h; event = event } ∷ calls event hs

calls-append :
    (event : Event) (hs ks : List ℕ) → calls event (hs ++ ks) ≡ calls event hs ++ calls event ks
calls-append event [] ks = refl
calls-append event (h ∷ hs) ks =
    ap (λ (x : List Handled). record { handler = h; event = event } ∷ x) (calls-append event hs ks)

handlers_for-append :
    (t : Bytes) (rs ss : List Registration)
    → handlers_for t (rs ++ ss) ≡ handlers_for t rs ++ handlers_for t ss
handlers_for-append t [] ss = refl
handlers_for-append t (r ∷ rs) ss =
    ap (λ (x : List ℕ). handlers_of t r ++ x) (handlers_for-append t rs ss)
    ∙ sym (append_assoc (handlers_of t r) (handlers_for t rs) (handlers_for t ss))

try_event-calls :
    (event : Event) (t : Bytes) (h : Option ℕ)
    → try_event event (record { trigger = t; handler = h })
      ≡ calls event (handlers_of event.trigger (record { trigger = t; handler = h }))
unfolding try_event
try_event-calls event t none = refl
try_event-calls event t (some h) = elim (Bool-cases (str_eq t event.trigger)) [
  | inl e ↦ simp e refl
  | inr e ↦ simp e refl
]

try_registrations-calls :
    (event : Event) (rs : List Registration)
    → try_registrations event rs ≡ calls event (handlers_for event.trigger rs)
unfolding try_registrations
try_registrations-calls event [] = refl
try_registrations-calls event (r ∷ rs) =
    ap (λ (x : List Handled). x ++ try_registrations event rs)
      (try_event-calls event r.trigger r.handler)
    ∙ ap (λ (x : List Handled). calls event (handlers_of event.trigger r) ++ x)
        (try_registrations-calls event rs)
    ∙ sym (calls-append event (handlers_of event.trigger r) (handlers_for event.trigger rs))

abbrev pub chained : List (List Registration) → List Registration
chained [] = []
chained (rs ∷ lists) = rs ++ chained lists

try_all-calls :
    (event : Event) (lists : List (List Registration))
    → try_all event lists ≡ calls event (handlers_for event.trigger (chained lists))
unfolding try_all
try_all-calls event [] = refl
try_all-calls event (rs ∷ lists) =
    ap (λ (x : List Handled). x ++ try_all event lists) (try_registrations-calls event rs)
    ∙ ap (λ (x : List Handled). calls event (handlers_for event.trigger rs) ++ x)
        (try_all-calls event lists)
    ∙ sym (
        ap (calls event) (handlers_for-append event.trigger rs (chained lists))
        ∙ calls-append event (handlers_for event.trigger rs)
            (handlers_for event.trigger (chained lists)))

chained-append :
    (ls : List (List Registration)) (rs : List Registration)
    → chained (ls ++ rs ∷ []) ≡ chained ls ++ rs
chained-append [] rs = append-nil rs
chained-append (l ∷ ls) rs =
    ap (λ (x : List Registration). l ++ x) (chained-append ls rs)
    ∙ sym (append_assoc l (chained ls) rs)

-- An event for a trigger and a URI that has these registrations, on at most so many places.
pub record Registered (e : Event) (trigger : Bytes) (uri : Option Bytes) (rs : List Registration)
    (n : ℕ) : Type 0 where
  pub trigger_of : e.trigger ≡ trigger
  pub uri_of : e.uri ≡ uri
  pub regs : chained e.reglist ≡ rs
  pub places : length e.reglist ≤ n

push_reglist-Registered :
    (e : Event) (t : Bytes) (u : Option Bytes) (rs ss : List Registration) (n : ℕ)
    → Registered e t u rs n
    → n < 8
    → Registered (push_reglist e ss) t u (rs ++ ss) (suc n)
unfolding push_reglist
push_reglist-Registered e t u rs [] n r b = record {
  trigger_of = r.trigger_of;
  uri_of = r.uri_of;
  regs = r.regs ∙ sym (append-nil rs);
  places = omega (arith, r.places);
}
push_reglist-Registered e t u rs (s ∷ ss) n r b =
    let places = r.places in
    rw (lt→ltb (length e.reglist) 8 (omega (arith, places, b))) (record {
      trigger_of = r.trigger_of;
      uri_of = r.uri_of;
      regs = chained-append e.reglist (s ∷ ss) ∙ ap (λ (x : List Registration). x ++ s ∷ ss) r.regs;
      places = rw (length-append e.reglist ((s ∷ ss) ∷ [])) (omega (arith, places));
    })

-- The registrations of a mount of this type.
abbrev pub registrations_of : EventConfig → MountType → Option MountProxy → List Registration
registrations_of config type none = []
registrations_of config type (some m) =
    if is_type m.mounttype type then config.mount_event m else []

push_mount-Registered :
    (config : EventConfig) (type : MountType) (m : Option MountProxy) (e : Event) (t : Bytes)
    (u : Option Bytes)
    → (rs : List Registration) (n : ℕ) → Registered e t u rs n
    → n < 8
    → Registered (push_mount config type m e) t u (rs ++ registrations_of config type m) (suc n)
unfolding push_mount
push_mount-Registered config type none e t u rs n r b = record {
  trigger_of = r.trigger_of;
  uri_of = r.uri_of;
  regs = r.regs ∙ sym (append-nil rs);
  places = omega (arith, r.places);
}
push_mount-Registered config type (some m) e t u rs n r b =
    elim (Bool-cases (is_type m.mounttype type)) [
      | inl h ↦ rw h (push_reglist-Registered e t u rs (config.mount_event m) n r b)
      | inr h ↦ rw h (push_reglist-Registered e t u rs [] n r b)
    ]

module _ (fnmatch : Bytes → Bytes → Bool) where
  -- What the configuration has for a URI: its own registrations, then those of the normal mount, then
  -- those of the first default mount that matches.
  abbrev pub registrations : EventConfig → Option Bytes → List Registration
  registrations config uri =
      (config.event
        ++ registrations_of config normal_mount (config_find_mount fnmatch uri config.mounts))
      ++ registrations_of config default_mount (find_typed fnmatch default_mount uri config.mounts)

  pub client_event-Registered :
      (config : EventConfig) (trigger : Bytes) (uri : Option Bytes)
      → Registered
          (client_event fnmatch config trigger uri)
          trigger
          uri
          (registrations config uri)
          3
  unfolding client_event
  client_event-Registered config trigger uri =
      let e : Event = record { trigger = trigger; uri = uri; reglist = [] } in
      let none_yet : Registered e trigger uri [] 0 = record {
        trigger_of = refl;
        uri_of = refl;
        regs = refl;
        places = omega arith;
      } in
      let normal = config_find_mount fnmatch uri config.mounts in
      push_mount-Registered config default_mount
        (find_typed fnmatch default_mount uri config.mounts) _ trigger uri _ 2
        (push_mount-Registered config normal_mount normal _ trigger uri _ 1
          (push_reglist-Registered e trigger uri [] config.event 0 none_yet (omega arith))
          (omega arith))
        (omega arith)

  pub client_event-handled :
      (config : EventConfig) (trigger : Bytes) (uri : Option Bytes)
      → handle_event (client_event fnmatch config trigger uri)
        ≡ calls
            (client_event fnmatch config trigger uri)
            (handlers_for trigger (registrations config uri))
  unfolding handle_event
  client_event-handled config trigger uri =
      let e = client_event fnmatch config trigger uri in
      let r = client_event-Registered config trigger uri in
      try_all-calls e e.reglist
      ∙ ap (λ (x : Bytes). calls e (handlers_for x (chained e.reglist))) r.trigger_of
      ∙ ap (λ (x : List Registration). calls e (handlers_for trigger x)) r.regs
