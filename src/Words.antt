-- ===== src/Words.antt =====
-- Words of the configuration: `util_str_to_bool` of src/util.c. `atoi` is a parameter.
use icecast_server.Prelude.{
  Bool, true, false, not, ◌||◌, [], ◌∷◌, Option, none, some, Bytes, codes, str_case_eq, ℤ, pos,
  negsuc, if◌then◌else◌, ◌==◌,
}

abbrev is_zero : ℤ → Bool
is_zero (pos n) = n == 0
is_zero (negsuc n) = false

module _ (atoi : Bytes → ℤ) where
  unfoldable pub str_to_bool : Option Bytes → Bool
  unfolding str_case_eq
  str_to_bool none = false
  str_to_bool (some []) = false
  str_to_bool (some (c ∷ cs)) =
      if str_case_eq (c ∷ cs) (codes "true")
        || str_case_eq (c ∷ cs) (codes "yes")
        || str_case_eq (c ∷ cs) (codes "on")
      then true
      else not (is_zero (atoi (c ∷ cs)))
