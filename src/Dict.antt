-- ===== src/Dict.antt =====
-- The dictionaries of src/util.c: `util_dict_get`, `util_dict_set` and `util_dict_urlencode`.
--
-- A dictionary is the list of its entries, of which one from `util_dict_new` has neither key nor
-- value. A NULL is `none`, and an allocation does not fail.
pub mod Laws
use icecast_server.Prelude.{
  ℕ, Bool, true, false, List, [], ◌∷◌, ◌++◌, Option, none, some, Bytes, str_eq, if◌then◌else◌,
}
use icecast_server.Uri.{escape_bytes}

pub record Entry : Type 0 where
  pub key : Option Bytes
  pub val : Option Bytes

abbrev pub Dict : Type 0
Dict = List Entry

-- `util_dict_new`
abbrev pub dict_new : Dict
dict_new = record { key = none; val = none } ∷ []

-- `dict->key && !strcmp(key, dict->key)`
unfoldable pub has_key : Bytes → Option Bytes → Bool
unfolding str_eq
has_key key none = false
has_key key (some k) = str_eq key k

unfoldable pub dict_get : Dict → Bytes → Option Bytes
unfolding has_key
dict_get [] key = none
dict_get (e ∷ es) key = let rest = dict_get es key in if has_key key e.key then e.val else rest

-- `!dict->key || !strcmp(dict->key, key)`
unfoldable pub is_place : Bytes → Option Bytes → Bool
unfolding str_eq
is_place key none = true
is_place key (some k) = str_eq k key

-- A dictionary that is not NULL, where a key is written at its entry, at the entry without a key, or
-- at a new last one.
unfoldable pub set_entry : Bytes → Bytes → Dict → Dict
unfolding is_place
set_entry key val [] = record { key = some key; val = some val } ∷ []
set_entry key val (e ∷ es) =
    let rest = e ∷ set_entry key val es in
    if is_place key e.key then record { key = some key; val = some val } ∷ es else rest

-- The result tells whether it was set. NULL is the dictionary without entries.
unfoldable pub dict_set : Dict → Option Bytes → Bytes → Bool × Dict
unfolding set_entry
dict_set [] key val = (false, [])
dict_set (e ∷ es) none val = (false, e ∷ es)
dict_set (e ∷ es) (some key) val = (true, set_entry key val (e ∷ es))

encode_value : Option Bytes → Bytes
unfolding escape_bytes
encode_value none = []
encode_value (some val) = b'=' ∷ escape_bytes val

-- The loop of `util_dict_urlencode`, with `res`, which is NULL at the start.
unfoldable pub urlencode_from : Option Bytes → Dict → ℕ → Option Bytes
unfolding encode_value
urlencode_from res [] delim = res
urlencode_from res (e ∷ es) delim = elim e.key [
  | none ↦ urlencode_from res es delim
  | some key ↦ elim res [
    | none ↦ urlencode_from (some (key ++ encode_value e.val)) es delim
    | some text ↦ urlencode_from (some (text ++ delim ∷ key ++ encode_value e.val)) es delim
  ]
]

unfoldable pub dict_urlencode : Dict → ℕ → Option Bytes
unfolding urlencode_from
dict_urlencode = urlencode_from none
