-- ===== src/Ebml/Numbers.antt =====
-- The numbers of a Matroska stream: `ebml_parse_var_int`, `ebml_parse_tag` and `ebml_parse_sized_int`
-- of src/format_ebml.c. A pointer with `buffer_end` is the list of the bytes between them.
use icecast_server.Prelude.{
  length, drop, Bytes, zero, suc, ◌+◌, ◌-◌, ◌*◌, ◌/◌, ◌%◌, ◌^◌, Bool, false, ◌&&◌, ◌||◌, Option,
  none, some, [], ◌∷◌, ltb, leb, ◌==◌, if◌then◌else◌, ℕ,
}

-- `EBML_UNKNOWN`
abbrev pub unknown : ℕ
unknown = 2 ^ 64 - 1

-- 0, -1, and a length with the value that is written.
pub data Parsed : Type 0 where
  need_more corrupt : Parsed
  parsed : ℕ → ℕ → Parsed

-- `(value << 8) + byte` of a `uint_least64_t`
abbrev pub shift_in : ℕ → ℕ → ℕ
shift_in value byte = (value * 256 + byte) % 2 ^ 64

pub record Marked : Type 0 where
  pub size : ℕ
  pub value : ℕ
  pub unknown_marker : ℕ

-- The loop over `mask`, which is `2 ^ k` in the round with `suc k`.
unfoldable pub find_marker : ℕ → ℕ → ℕ → Option Marked
find_marker zero size value = none
find_marker (suc k) size value =
    let further = find_marker k (suc size) value in
    if value / 2 ^ k % 2 == 1
    then some (record { size = size; value = value - 2 ^ k; unknown_marker = 2 ^ k - 1 })
    else further

-- The loop over the remaining bytes.
unfoldable pub read_bytes : ℕ → ℕ → ℕ → Bytes → ℕ × ℕ
read_bytes zero value marker bytes = (value, marker)
read_bytes (suc n) value marker [] = (value, marker)
read_bytes (suc n) value marker (b ∷ bytes) =
    read_bytes n (shift_in value b) (shift_in marker 255) bytes

abbrev pub or_unknown : ℕ × ℕ → ℕ
or_unknown (value, marker) = if value == marker then unknown else value

unfoldable pub after_marker : Option Marked → Bytes → Parsed
unfolding read_bytes
after_marker none rest = corrupt
after_marker (some m) rest =
    if leb (suc (length rest)) (m.size - 1)
    then need_more
    else parsed m.size (or_unknown (read_bytes (m.size - 1) m.value m.unknown_marker rest))

-- `ebml_parse_var_int`
unfoldable pub parse_var_int : Bytes → Parsed
unfolding find_marker after_marker
parse_var_int [] = need_more
parse_var_int (b ∷ rest) = after_marker (find_marker 8 1 b) rest

-- With the length of the type.
unfoldable pub after_type : ℕ → Parsed → Parsed
after_type type_length need_more = need_more
after_type type_length corrupt = corrupt
after_type type_length (parsed size_length payload_length) =
    parsed (type_length + size_length) payload_length

unfoldable pub parse_size : Bytes → Parsed → Parsed
unfolding parse_var_int after_type
parse_size buffer need_more = need_more
parse_size buffer corrupt = corrupt
parse_size buffer (parsed type_length tag_id) =
    after_type type_length (parse_var_int (drop type_length buffer))

-- `ebml_parse_tag`; nothing reads the `tag_id` that it writes.
unfoldable pub parse_tag : Bytes → Parsed
unfolding parse_size parse_var_int
parse_tag buffer = parse_size buffer (parse_var_int buffer)

unfoldable pub sum_bytes : ℕ → ℕ → Bytes → ℕ
sum_bytes zero value bytes = value
sum_bytes (suc n) value [] = value
sum_bytes (suc n) value (b ∷ bytes) = sum_bytes n (shift_in value b) bytes

-- `((signed char) buffer[0]) < 0`
abbrev pub is_negative : Bytes → Bool
is_negative [] = false
is_negative (b ∷ bytes) = leb 128 b

-- `ebml_parse_sized_int`
unfoldable pub parse_sized_int : Bytes → ℕ → Bool → Parsed
unfolding sum_bytes
parse_sized_int buffer len is_signed =
    if ltb len 1 || ltb 8 len
    then corrupt
    else if leb (length buffer) len
    then need_more
    else parsed len (sum_bytes len (if is_signed && is_negative buffer then unknown else 0) buffer)
