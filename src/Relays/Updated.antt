-- ===== src/Relays/Updated.antt =====
-- What becomes of the relays when their configuration is updated.
use icecast_server.Prelude.{
  All, map, ◌+◌, ◌≡◌, refl, ap, ◌∙◌, Option, none, some, List, [], ◌∷◌, arith, ℕ,
}
use icecast_server.Relays.{
  Relay, relay_copy, take_existing, insert_relay, update_from, update_relay_set, update_relays,
}
use icecast_server.Relays.Searched.{
  Configured, configured, reverse_onto, holders, Apart, NotKept, Search, take_existing-Search,
}

-- What rounds over some relays make of `current` and `new_list`.
record Renewed (updated current new_list : List Relay) (r : List Relay × List Relay) : Type 0 where
  same : map configured r.1 ≡ reverse_onto updated (map configured new_list)
  held : (id : ℕ) → holders id r.1 + holders id r.0 ≡ holders id new_list + holders id current
  not_kept : (v : Relay) → NotKept v current → NotKept v r.0
  apart : Apart current → All (λ (u : Relay). NotKept u r.0) updated

-- One round.
record Inserted (u : Relay) (current new_list : List Relay) (r : List Relay × List Relay)
    : Type 0 where
  same : map configured r.1 ≡ configured u ∷ map configured new_list
  held : (id : ℕ) → holders id r.1 + holders id r.0 ≡ holders id new_list + holders id current
  not_kept : (v : Relay) → NotKept v current → NotKept v r.0
  apart : Apart current → Apart r.0 × NotKept u r.0

insert_relay-Inserted :
    (u : Relay) (current new_list : List Relay) (o : Option (Relay × List Relay))
    → Search u current o
    → Inserted u current new_list (insert_relay u current new_list o)
unfolding insert_relay relay_copy
insert_relay-Inserted u current new_list none k = record {
  same = refl;
  held = λ id. omega arith;
  not_kept = λ v w. w;
  apart = λ a. (a, k);
}
insert_relay-Inserted u current new_list (some (e, rest)) f = record {
  same = ap (λ (x : Configured). x ∷ map configured new_list) f.same;
  held = λ id. let held = f.held id in omega (arith, held);
  not_kept = f.not_kept;
  apart = f.apart;
}

update_from-Renewed :
    (updated current new_list : List Relay)
    → Renewed updated current new_list (update_from updated current new_list)
unfolding update_from
update_from-Renewed [] current new_list = record {
  same = refl;
  held = λ id. refl;
  not_kept = λ v w. w;
  apart = λ a. tt;
}
update_from-Renewed (u ∷ updated) current new_list =
    let r = insert_relay u current new_list (take_existing u current) in
    let s =
      insert_relay-Inserted u current new_list (take_existing u current)
        (take_existing-Search u current) in
    let t = update_from-Renewed updated r.0 r.1 in
    record {
      same = t.same ∙ ap (reverse_onto updated) s.same;
      held = λ id. t.held id ∙ s.held id;
      not_kept = λ v w. t.not_kept v (s.not_kept v w);
      apart = λ a. let (a', k) = s.apart a in (t.not_kept u k, t.apart a');
    }

-- The list of the relays and those to clean up, after an update.
pub record RelaysUpdated (list updated : List Relay) (r : List Relay × List Relay) : Type 0 where
  pub same : map configured r.0 ≡ reverse_onto updated []
  pub held : (id : ℕ) → holders id r.0 + holders id r.1 ≡ holders id list
  pub cleaned : Apart list → All (λ (u : Relay). NotKept u r.1) updated

-- After update_relays the list has, in the reverse order of the new relays, one relay for each of
-- them, with its mounts, server, port and options; every source that a relay of the old list had is
-- had by as many relays of the list and of those to clean up together, so none is lost or doubled; and
-- if each relay of the old list had a mount of its own, none is cleaned up that a new relay would
-- keep.
pub update_relays-RelaysUpdated :
    (list updated : List Relay) → RelaysUpdated list updated (update_relays list updated)
unfolding update_relays update_relay_set
update_relays-RelaysUpdated list updated =
    let t = update_from-Renewed updated list [] in
    record {
      same = t.same;
      held = λ id. let held = t.held id in omega (arith, held);
      cleaned = t.apart;
    }
