-- ===== src/Uri/Coding.antt =====
-- `hexchars`, `safechars`, `hex`, `util_url_escape` and `util_url_unescape` of src/util.c.
use icecast_server.Prelude.{
  ℕ, ◌+◌, ◌-◌, ◌*◌, ◌/◌, ◌%◌, List, [], ◌∷◌, ◌++◌, Option, none, some, Bytes, codes, ◌==◌, within,
  if◌then◌else◌, get_or, replicate,
}

abbrev pub hexchars : Bytes
hexchars = codes "0123456789abcdef"

-- 1 at the letters and the digits of ASCII, and 0 at the other bytes.
abbrev pub safechars : List ℕ
safechars =
    replicate 48 0
    ++ (replicate 10 1
        ++ (replicate 7 0
            ++ (replicate 26 1 ++ (replicate 6 0 ++ (replicate 26 1 ++ replicate 133 0)))))

-- `none` is -1
unfoldable pub hex : ℕ → Option ℕ
hex c =
    if within b'0' b'9' c
    then some (c - b'0')
    else if within b'A' b'F' c
    then some (c - b'A' + 10)
    else if within b'a' b'f' c
    then some (c - b'a' + 10)
    else none

-- What the loop of `util_url_escape` appends for one byte.
unfoldable pub escape_byte : ℕ → Bytes
escape_byte c =
    if get_or safechars c 0 == 0
    then b'%' ∷ get_or hexchars (c / 16 % 16) 0 ∷ get_or hexchars (c % 16) 0 ∷ []
    else c ∷ []

unfoldable pub escape_bytes : Bytes → Bytes
escape_bytes [] = []
escape_bytes (c ∷ cs) = escape_byte c ++ escape_bytes cs

unfoldable pub url_escape : Option Bytes → Option Bytes
unfolding escape_bytes escape_byte
url_escape none = none
url_escape (some src) = some (escape_bytes src)

-- The byte of two hexadecimal digits, if both are.
unfoldable pub hex_pair : ℕ → ℕ → Option ℕ
unfolding hex
hex_pair a b = elim (hex a) [
  | none ↦ none
  | some x ↦ elim (hex b) [ none ↦ none | some y ↦ some (x * 16 + y) ]
]

-- Writes a byte before what the rest of the loop writes.
abbrev pub emit : ℕ → Option Bytes → Option Bytes
emit c none = none
emit c (some out) = some (c ∷ out)

abbrev pub emit? : Option ℕ → Option Bytes → Option Bytes
emit? none out = none
emit? (some c) out = emit c out

-- The branches of the `switch` but '%': `rest` is the rest of the loop.
abbrev pub unescape_plain : ℕ → Option Bytes → Option Bytes
unescape_plain c rest = if c == b'#' then some [] else if c == 0 then none else emit c rest

-- At `i + 2 >= len` there are fewer than two bytes behind the '%'.
unfoldable pub url_unescape : Bytes → Option Bytes
unfolding hex_pair
url_unescape [] = some []
url_unescape (c ∷ []) = if c == b'%' then none else unescape_plain c (some [])
url_unescape (c ∷ a ∷ []) =
    let rest = url_unescape (a ∷ []) in if c == b'%' then none else unescape_plain c rest
url_unescape (c ∷ a ∷ b ∷ cs) =
    let escaped = emit? (hex_pair a b) (url_unescape cs) in
    let plain = unescape_plain c (url_unescape (a ∷ b ∷ cs)) in if c == b'%' then escaped else plain
