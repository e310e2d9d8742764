-- ===== src/Tests/Relays.antt =====
-- Tests of `Relays`.
use icecast_server.Prelude.{
  codes, Bytes, ◌≡◌, refl, true, false, Option, none, some, List, [], ◌∷◌, ℕ,
}
use icecast_server.Relays.{Relay, update_relays}
use icecast_server.Relays.Updated.{RelaysUpdated, update_relays-RelaysUpdated}

-- A running relay for a mount.
abbrev relay_for : Bytes → ℕ → Option ℕ → Relay
relay_for mount port source = record {
  server = codes "master";
  port = port;
  mount = mount;
  username = none;
  password = none;
  localmount = mount;
  bind_address = none;
  source = source;
  mp3metadata = 1;
  on_demand = 0;
  running = true;
  cleanup = false;
  start = 7;
  thread = some 1;
}

abbrev old_relays : List Relay
old_relays = relay_for (codes "/a") 80 (some 1) ∷ relay_for (codes "/b") 80 (some 2) ∷ []

-- One is as it was, one is at another port.
abbrev new_relays : List Relay
new_relays = relay_for (codes "/a") 80 none ∷ relay_for (codes "/b") 81 none ∷ []

abbrev ports_and_sources : List Relay → List (ℕ × Option ℕ)
ports_and_sources [] = []
ports_and_sources (r ∷ rs) = (r.port, r.source) ∷ ports_and_sources rs

keeps_one :
    ports_and_sources (update_relays old_relays new_relays).0 ≡ (81, none) ∷ (80, some 1) ∷ []
unfolding update_relays
keeps_one = refl

cleans_one : ports_and_sources (update_relays old_relays new_relays).1 ≡ (80, some 2) ∷ []
unfolding update_relays
cleans_one = refl

update_relays-RelaysUpdated_example :
    RelaysUpdated old_relays new_relays (update_relays old_relays new_relays)
update_relays-RelaysUpdated_example = update_relays-RelaysUpdated old_relays new_relays
