-- ===== src/Acl/Items.antt =====
-- The loop of `acl_set_ANY_str` of src/acl.c and the items between the commas.
use icecast_server.Prelude.{
  false, ℕ, zero, suc, ◌<◌, map, if◌then◌else◌, ◌==◌, ◌≤◌, List, [], ◌∷◌, Option, none, some, Bytes,
  split_at_byte, length, ◌≡◌, refl, arith,
}
use icecast_server.Acl.{
  is_error, Policy, set_items, set_any_str, go_on, failed, ok, Status, Acl, Outcome, skip_spaces,
  set_item,
}

abbrev add_to_first : ℕ → List Bytes → List Bytes
add_to_first c [] = (c ∷ []) ∷ []
add_to_first c (w ∷ ws) = (c ∷ w) ∷ ws

-- What stands between the occurrences of a byte.
abbrev pub split_by : ℕ → Bytes → List Bytes
split_by b [] = [] ∷ []
split_by b (c ∷ cs) = if c == b then [] ∷ split_by b cs else add_to_first c (split_by b cs)

-- Every item in order, until one fails.
abbrev pub set_each : (Acl → Bytes → Outcome) → Acl → List Bytes → Outcome
set_each callback acl [] = record { status = ok; acl = acl }
set_each callback acl (item ∷ items) =
    let r = set_item callback acl item in
    elim r.status [
      | ok ↦ set_each callback r.acl items
      | failed ↦ record { status = failed; acl = r.acl }
    ]

abbrev rest_items : Option Bytes → List Bytes
rest_items none = []
rest_items (some rest) = map skip_spaces (split_by b',' rest)

abbrev rest_length : Option Bytes → ℕ
rest_length none = 0
rest_length (some rest) = suc (length rest)

abbrev split_rest : Option Bytes → List Bytes
split_rest none = []
split_rest (some rest) = split_by b',' rest

split_by-first :
    (cs : Bytes)
    → split_by b',' cs ≡ (split_at_byte b',' cs).0 ∷ split_rest (split_at_byte b',' cs).1
unfolding split_at_byte
split_by-first [] = refl
split_by-first (c ∷ cs) = ground (arith, split_by-first cs)

first_skip :
    (cs : Bytes)
    → ((split_at_byte b',' (skip_spaces cs)).0 ≡ skip_spaces (split_at_byte b',' cs).0)
      × ((split_at_byte b',' (skip_spaces cs)).1 ≡ (split_at_byte b',' cs).1)
unfolding split_at_byte skip_spaces
first_skip [] = (refl, refl)
first_skip (c ∷ cs) = ground (arith, first_skip cs)

rest_shorter : (cs : Bytes) → rest_length (split_at_byte b',' cs).1 ≤ length cs
unfolding split_at_byte
rest_shorter [] = omega arith
rest_shorter (c ∷ cs) = ground (arith, rest_shorter cs)

set_items-each :
    (fuel : ℕ) (callback : Acl → Bytes → Outcome) (acl : Acl) (str : Bytes)
    → length str < fuel
    → set_items fuel callback acl str ≡ set_each callback acl (map skip_spaces (split_by b',' str))
unfolding set_items go_on
set_items-each zero callback acl str h = absurd (omega arith)
set_items-each (suc fuel) callback acl str h =
    let r = set_item callback acl (skip_spaces (split_at_byte b',' str).0) in
    rw (split_by-first str, (first_skip str).0, (first_skip str).1)
      (goes_on (set_items-each fuel callback) r.status r.acl (split_at_byte b',' str).1
        (omega (arith, rest_shorter str)))
  where
    goes_on :
        ((a : Acl) (rest : Bytes)
          → length rest < fuel
          → set_items fuel callback a rest
            ≡ set_each callback a (map skip_spaces (split_by b',' rest)))
        → (s : Status) (a : Acl) (after : Option Bytes) → rest_length after ≤ fuel
        → go_on (set_items fuel callback) s a after ≡ elim s [
          | ok ↦ set_each callback a (map skip_spaces (split_rest after))
          | failed ↦ record { status = failed; acl = a }
        ]
    goes_on ih failed a after l = refl
    goes_on ih ok a none l = refl
    goes_on ih ok a (some rest) l = ih a rest (omega arith)

-- For a policy that is allow or deny, `acl_set_ANY_str` hands to the callback, in order and up to the
-- first failure, what stands between the commas, without leading spaces; it goes through the whole
-- string.
pub set_any_str-each :
    (callback : Policy → Acl → Bytes → Outcome) (p : Policy) (str : Bytes) (acl : Acl)
    → is_error p ≡ false
    → set_any_str callback p str acl
      ≡ set_each (callback p) acl (map skip_spaces (split_by b',' str))
unfolding set_any_str
set_any_str-each callback p str acl h =
    rw h (set_items-each (suc (length str)) (callback p) acl str (omega arith))
