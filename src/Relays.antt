-- ===== src/Relays.antt =====
-- The lists of relays: `update_relay_set` and `update_relays` of src/slave.c, with `relay_copy` and
-- `relay_has_changed`.
--
-- A relay's `source` is the identity of the source that it has reserved. A list is changed in place by
-- the code, and here by a result; the order is kept. Copies of strings are the strings.
pub mod Searched
pub mod Updated
use icecast_server.Prelude.{
  str_eq, Bytes, zero, suc, ◌+◌, ◌-◌, ◌*◌, ◌/◌, ◌%◌, ◌^◌, ◌≤◌, ◌<◌, ◌≡◌, refl, sym, ap, ◌∙◌, ◌≢◌,
  ◌↔◌, ◌⊎◌, inl, inr, Bool, true, false, not, ◌&&◌, ◌||◌, Option, none, some, List, [], ◌∷◌, ◌++◌,
  arith, ltb, leb, ◌==◌, if◌then◌else◌, Bool-cases, ℕ,
}

-- `relay_server`, but for `next`
pub record Relay : Type 0 where
  pub server : Bytes
  pub port : ℕ
  pub mount : Bytes
  pub username : Option Bytes
  pub password : Option Bytes
  pub localmount : Bytes
  -- `bind`
  pub bind_address : Option Bytes
  pub source : Option ℕ
  pub mp3metadata : ℕ
  pub on_demand : ℕ
  pub running : Bool
  pub cleanup : Bool
  pub start : ℕ
  pub thread : Option ℕ

-- `relay_copy`, of which `calloc` clears the rest.
unfoldable pub relay_copy : Relay → Relay
relay_copy r = record {
  server = r.server;
  port = r.port;
  mount = r.mount;
  username = r.username;
  password = r.password;
  localmount = r.localmount;
  bind_address = none;
  source = none;
  mp3metadata = r.mp3metadata;
  on_demand = r.on_demand;
  running = false;
  cleanup = false;
  start = 0;
  thread = none;
}

-- `relay_has_changed(new, old) == 0`
unfoldable pub is_unchanged : Relay → Relay → Bool
unfolding str_eq
is_unchanged new old =
    str_eq new.mount old.mount
    && str_eq new.server old.server
    && new.port == old.port
    && new.mp3metadata == old.mp3metadata

-- What `relay_has_changed` leaves of an old relay that has not changed.
unfoldable pub adopt : Relay → Relay → Relay
adopt new old = record old { on_demand = new.on_demand }

-- Does the search stop at a relay?
unfoldable pub is_kept : Relay → Relay → Bool
unfolding str_eq is_unchanged
is_kept relay existing = str_eq relay.localmount existing.localmount && is_unchanged relay existing

abbrev pub put_back : Relay → Option (Relay × List Relay) → Option (Relay × List Relay)
put_back r none = none
put_back r (some (existing, rest)) = some (existing, r ∷ rest)

-- The inner loop: the relay to keep, if there is one, and the list without it.
unfoldable pub take_existing : Relay → List Relay → Option (Relay × List Relay)
unfolding is_kept adopt
take_existing relay [] = none
take_existing relay (r ∷ rs) =
    let further = put_back r (take_existing relay rs) in
    if is_kept relay r then some (adopt relay r, rs) else further

-- `current` and `new_list` after a round.
unfoldable pub insert_relay :
    Relay → List Relay → List Relay → Option (Relay × List Relay) → List Relay × List Relay
unfolding relay_copy
insert_relay relay current new_list none = (current, relay_copy relay ∷ new_list)
insert_relay relay current new_list (some (existing, rest)) = (rest, existing ∷ new_list)

-- The outer loop, over the updated relays.
unfoldable pub update_from : List Relay → List Relay → List Relay → List Relay × List Relay
unfolding insert_relay take_existing
update_from [] current new_list = (current, new_list)
update_from (relay ∷ updated) current new_list =
    let (current', new_list') = insert_relay relay current new_list (take_existing relay current) in
    update_from updated current' new_list'

-- `update_relay_set`: what is left in `current`, and the list that it returns.
unfoldable pub update_relay_set : List Relay → List Relay → List Relay × List Relay
unfolding update_from
update_relay_set current updated = update_from updated current []

-- `update_relays`: the list of the relays, and the relays to clean up.
unfoldable pub update_relays : List Relay → List Relay → List Relay × List Relay
unfolding update_relay_set
update_relays relay_list new_relay_list =
    let (cleanup, active) = update_relay_set relay_list new_relay_list in (active, cleanup)
