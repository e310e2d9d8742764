-- ===== src/Dict/Laws.antt =====
-- `util_dict_get` after `util_dict_set` of src/util.c.
use icecast_server.Prelude.{
  Option, some, none, sym, ◌≡◌, ◌≢◌, refl, true, false, [], ◌∷◌, Bytes, str_eq, str_eq_iff,
  if◌then◌else◌, arith, Bool-cases, inl, inr, ◌⊎◌,
}
use icecast_server.Dict.{dict_set, Entry, Dict, dict_new, has_key, dict_get, is_place, set_entry}

abbrev Absent : Bytes → Dict → Type 0
Absent key [] = Unit
Absent key (e ∷ es) = (has_key key e.key ≡ false) × Absent key es

-- Every entry has a key, and no key stands twice.
abbrev pub Keyed : Dict → Type 0
Keyed [] = Unit
Keyed (e ∷ es) = ((k : Bytes) × (e.key ≡ some k) × Absent k es) × Keyed es

-- As `util_dict_new` returns it, or with keys.
abbrev pub IsDict : Dict → Type 0
IsDict d = (d ≡ dict_new) ⊎ ((d ≢ []) × Keyed d)

-- A place of the key is the entry of no other key, and any other entry is not the key's.
place_of_key :
    (key other : Bytes) (k : Option Bytes)
    → is_place key k ≡ true
    → has_key other k ≡ true
    → str_eq other key ≡ true
unfolding is_place has_key
place_of_key key other none h g = cc
place_of_key key other (some k) h g =
    ground (arith, str_eq_iff k key, str_eq_iff other k, str_eq_iff other key)

place_of_other :
    (key other : Bytes) (k : Option Bytes)
    → is_place key k ≡ false
    → has_key other k ≡ true
    → str_eq other key ≡ false
unfolding is_place has_key
place_of_other key other none h g = cc
place_of_other key other (some k) h g =
    ground (arith, str_eq_iff k key, str_eq_iff other k, str_eq_iff other key)

set_entry-get :
    (d : Dict) (key val other : Bytes)
    → dict_get (set_entry key val d) other
      ≡ (if str_eq other key then some val else dict_get d other)
unfolding set_entry dict_get
set_entry-get [] key val other = unfold has_key in refl
set_entry-get (e ∷ es) key val other = elim (Bool-cases (is_place key e.key)) [
  | inl p ↦ rw p (replaced (Bool-cases (has_key other e.key)) p)
  | inr p ↦ rw p (passed (Bool-cases (has_key other e.key)) p (set_entry-get es key val other))
]
  where
    replaced :
        (has_key other e.key ≡ true) ⊎ (has_key other e.key ≡ false)
        → is_place key e.key ≡ true
        → dict_get (record { key = some key; val = some val } ∷ es) other
          ≡ (if str_eq other key then some val else dict_get (e ∷ es) other)
    replaced (inl h) p = unfold has_key in rw (place_of_key key other e.key p h) refl
    replaced (inr h) p = rw h (unfold has_key in refl)

    passed :
        (has_key other e.key ≡ true) ⊎ (has_key other e.key ≡ false)
        → is_place key e.key ≡ false
        → dict_get (set_entry key val es) other
          ≡ (if str_eq other key then some val else dict_get es other)
        → dict_get (e ∷ set_entry key val es) other
          ≡ (if str_eq other key then some val else dict_get (e ∷ es) other)
    passed (inl h) p ih = rw (h, place_of_other key other e.key p h) refl
    passed (inr h) p ih = rw h ih

set_entry-Absent :
    (d : Dict) (key val k : Bytes)
    → str_eq k key ≡ false
    → Absent k d
    → Absent k (set_entry key val d)
unfolding set_entry
set_entry-Absent [] key val k h a = (unfold has_key in h, tt)
set_entry-Absent (e ∷ es) key val k h a = elim (Bool-cases (is_place key e.key)) [
  | inl p ↦ rw p (unfold has_key in h, a.1)
  | inr p ↦ rw p (a.0, set_entry-Absent es key val k h a.1)
]

set_entry-Keyed : (d : Dict) (key val : Bytes) → Keyed d → Keyed (set_entry key val d)
unfolding set_entry
set_entry-Keyed [] key val h = ((key, refl, tt), tt)
set_entry-Keyed (e ∷ es) key val ((k, q, a), h) = elim (Bool-cases (is_place key e.key)) [
  | inl p ↦
      let same : k ≡ key = unfold is_place in (str_eq_iff k key).0 (rw q at p) in
      rw p ((key, refl, rw (sym same) a), h)
  | inr p ↦
      let other : str_eq k key ≡ false = unfold is_place in (rw q at p) in
      rw p ((k, q, set_entry-Absent es key val k other a), set_entry-Keyed es key val h)
]

cons_nonempty : (e : Entry) (es : Dict) → (e ∷ es) ≢ []
cons_nonempty e es h = cc

set_entry-nonempty : (d : Dict) (key val : Bytes) → set_entry key val d ≢ []
unfolding set_entry
set_entry-nonempty [] key val = cons_nonempty _ []
set_entry-nonempty (e ∷ es) key val = elim (Bool-cases (is_place key e.key)) [
  | inl p ↦ rw p (cons_nonempty _ es)
  | inr p ↦ rw p (cons_nonempty e (set_entry key val es))
]

new_Keyed : (key val : Bytes) → Keyed (set_entry key val dict_new)
unfolding set_entry is_place
new_Keyed key val = ((key, refl, tt), tt)

IsDict-Keyed : (d : Dict) (key val : Bytes) → IsDict d → Keyed (set_entry key val d)
IsDict-Keyed d key val (inl h) = rw h (new_Keyed key val)
IsDict-Keyed d key val (inr h) = set_entry-Keyed d key val h.1

-- Setting a key of a dictionary that is new, or of which every entry has a key of its own, succeeds
-- and leaves a dictionary of which every entry has a key of its own; afterwards that key has the new
-- value and every other key the value it had.
pub dict_set-get :
    (d : Dict) (key val : Bytes)
    → IsDict d
    → ((dict_set d (some key) val).0 ≡ true)
      × ((dict_set d (some key) val).1 ≢ [])
      × Keyed (dict_set d (some key) val).1
      × ((other : Bytes)
          → dict_get (dict_set d (some key) val).1 other
            ≡ (if str_eq other key then some val else dict_get d other))
unfolding dict_set
dict_set-get [] key val (inl h) = absurd (cc)
dict_set-get [] key val (inr h) = absurd (h.0 refl)
dict_set-get (e ∷ es) key val h = (
  refl,
  set_entry-nonempty (e ∷ es) key val,
  IsDict-Keyed (e ∷ es) key val h,
  λ o. set_entry-get (e ∷ es) key val o,
)
