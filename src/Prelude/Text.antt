-- ===== src/Prelude/Text.antt =====
-- C strings as lists of bytes, without the terminating NUL, and the functions of <string.h> that the
-- program uses on them.
use Prim.Native.Nat.{ℕ, ◌+◌}
use Prim.Native.Char.{code}
use Prim.Native.String.{String}
use mathlib.Core.Path.{◌≡◌}
use mathlib.Core.Logic.{◌↔◌}
use mathlib.Core.Bool.{Bool, true, false, ◌&&◌, ◌||◌}
use mathlib.Core.List.{List, [], ◌∷◌, map}
use mathlib.Core.Option.{Option, none, some}
use native.Mathlib.Omega.{arith}
use icecast_server.Prelude.Tests.{◌==◌, within, if◌then◌else◌}

abbrev pub Bytes : Type 0
Bytes = List ℕ

-- The bytes of an ASCII literal.
abbrev pub codes : String → Bytes
codes String.[] = []
codes (String.◌∷◌ c s) = code c ∷ codes s

-- `strcmp(a, b) == 0`
unfoldable pub str_eq : Bytes → Bytes → Bool
str_eq [] [] = true
str_eq (x ∷ xs) (y ∷ ys) = x == y && str_eq xs ys
str_eq _ _ = false

pub str_eq_iff : (a b : Bytes) → (str_eq a b ≡ true) ↔ (a ≡ b)
unfolding str_eq
str_eq_iff (x ∷ a) (y ∷ b) = ground (arith, str_eq_iff a b)
str_eq_iff _ _ = ground arith

-- The C string that begins at a buffer: what stands before its first NUL.
unfoldable pub c_string : Bytes → Bytes
c_string [] = []
c_string (c ∷ cs) = let rest = c_string cs in if c == 0 then [] else c ∷ rest

-- `tolower` in the C locale
abbrev pub to_lower : ℕ → ℕ
to_lower c = if within b'A' b'Z' c then c + 32 else c

-- `strcasecmp(a, b) == 0`
unfoldable pub str_case_eq : Bytes → Bytes → Bool
unfolding str_eq
str_case_eq a b = str_eq (map to_lower a) (map to_lower b)

-- `strstr(s, t) != NULL` for a one-byte `t`, and `strchr`: does the byte occur?
unfoldable pub contains_byte : ℕ → Bytes → Bool
contains_byte b [] = false
contains_byte b (c ∷ cs) = c == b || contains_byte b cs

-- What stands before the first `b`, and what follows it, if there is one.
unfoldable pub split_at_byte : ℕ → Bytes → Bytes × Option Bytes
split_at_byte b [] = ([], none)
split_at_byte b (c ∷ cs) =
    let (before, after) = split_at_byte b cs in
    if c == b then ([], some cs) else (c ∷ before, after)

-- `strncmp(s, prefix, strlen(prefix)) == 0`
unfoldable pub starts_with : Bytes → Bytes → Bool
starts_with [] s = true
starts_with (x ∷ prefix) [] = false
starts_with (x ∷ prefix) (y ∷ s) = x == y && starts_with prefix s

-- `strstr(s, text)`: the string from the first occurrence on.
unfoldable pub find_text : Bytes → Bytes → Option Bytes
unfolding starts_with
find_text text [] = if starts_with text [] then some [] else none
find_text text (c ∷ cs) =
    let further = find_text text cs in if starts_with text (c ∷ cs) then some (c ∷ cs) else further
