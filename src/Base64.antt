-- ===== src/Base64.antt =====
-- `util_base64_encode`, `util_base64_decode` and `util_bin_to_hex` of src/util.c.
--
-- A shift or a mask of a byte is written as a division or a remainder by a power of two, and an `|` of
-- separate bits as a sum. A `char` keeps 8 bits. NULL is `none`, and an allocation does not fail. The
-- encoder reads one byte after the data where one byte is left: it is an argument, `after`.
pub mod RoundTrip
use icecast_server.Prelude.{
  zero, suc, ℕ, ◌+◌, ◌-◌, ◌*◌, ◌/◌, ◌%◌, List, [], ◌∷◌, ◌++◌, Option, none, some, Bytes, codes,
  get_or, replicate, ltb, if◌then◌else◌, Bool, true, false, ◌||◌,
}
use icecast_server.Uri.{hexchars}

abbrev pub base64table : Bytes
base64table = codes "ABCDEFGHIJKLMNOPQRSTUVWXYZabcdefghijklmnopqrstuvwxyz0123456789+/"

-- What the decoder's table says of a byte: -2, -1 or a value of six bits.
pub data Digit : Type 0 where
  no_digit padding : Digit
  digit : ℕ → Digit

abbrev pub digits : ℕ → ℕ → List Digit
digits first zero = []
digits first (suc n) = digit first ∷ digits (first + 1) n

abbrev pub base64decode : List Digit
base64decode =
    replicate 43 no_digit
    ++ (digit 62 ∷ no_digit ∷ no_digit ∷ no_digit ∷ digit 63 ∷ [])
    ++ digits 52 10
    ++ (no_digit ∷ no_digit ∷ no_digit ∷ padding ∷ no_digit ∷ no_digit ∷ no_digit ∷ [])
    ++ digits 0 26
    ++ replicate 6 no_digit
    ++ digits 26 26
    ++ replicate 133 no_digit

abbrev pub char_at : ℕ → ℕ
char_at i = get_or base64table i 0

-- The loop of `util_base64_encode`: a chunk of three, of two, or of one.
unfoldable pub base64_encode : ℕ → Bytes → Bytes
base64_encode after [] = []
base64_encode after (a ∷ []) =
    char_at (a / 4) ∷ char_at (a % 4 * 16 + after / 16) ∷ b'=' ∷ b'=' ∷ []
base64_encode after (a ∷ b ∷ []) =
    char_at (a / 4) ∷ char_at (a % 4 * 16 + b / 16) ∷ char_at (b % 16 * 4) ∷ b'=' ∷ []
base64_encode after (a ∷ b ∷ c ∷ rest) =
    char_at (a / 4)
    ∷ char_at (a % 4 * 16 + b / 16)
    ∷ char_at (b % 16 * 4 + c / 64)
    ∷ char_at (c % 64)
    ∷ base64_encode after rest

-- What a group of four writes: three bytes, or nothing if a value is out of place.
unfoldable pub decode_group : Digit → Digit → Digit → Digit → Bytes
decode_group (digit v) (digit w) (digit x) (digit y) =
    (v * 4 + w / 16) % 256 ∷ (w % 16 * 16 + x / 4) % 256 ∷ (x % 4 * 64 + y) % 256 ∷ []
decode_group (digit v) (digit w) (digit x) padding =
    (v * 4 + w / 16) % 256 ∷ (w % 16 * 16 + x / 4) % 256 ∷ 0 ∷ []
-- `vals[2]` is -1 here, and its two low bits are set.
decode_group (digit v) (digit w) padding (digit y) =
    (v * 4 + w / 16) % 256 ∷ 0 ∷ (3 * 64 + y) % 256 ∷ []
decode_group (digit v) (digit w) padding padding = (v * 4 + w / 16) % 256 ∷ 0 ∷ 0 ∷ []
decode_group _ _ _ _ = []

abbrev pub digit_of : ℕ → Digit
digit_of c = get_or base64decode c no_digit

prepend : Bytes → Option Bytes → Option Bytes
prepend bytes none = none
prepend bytes (some rest) = some (bytes ++ rest)

-- The loop of `util_base64_decode`. The buffer is returned whole, without the last NUL.
unfoldable pub base64_decode : Bytes → Option Bytes
unfolding decode_group prepend
base64_decode [] = some []
base64_decode (a ∷ b ∷ c ∷ d ∷ rest) =
    prepend (decode_group (digit_of a) (digit_of b) (digit_of c) (digit_of d)) (base64_decode rest)
base64_decode _ = none

unfoldable pub bin_to_hex : Bytes → Bytes
bin_to_hex [] = []
bin_to_hex (c ∷ cs) = get_or hexchars (c / 16 % 16) 0 ∷ get_or hexchars (c % 16) 0 ∷ bin_to_hex cs
