-- ===== src/Mp3/Filter.antt =====
-- Reading a source: `complete_read`, `mp3_get_no_meta` and `mp3_get_filter_meta` of src/format_mp3.c.
use icecast_server.Prelude.{
  ℕ, zero, suc, ◌+◌, ◌-◌, ◌*◌, Bool, true, false, not, ◌&&◌, Option, none, some, [], ◌∷◌, ◌++◌, ltb,
  leb, ◌==◌, if◌then◌else◌, Bytes, codes, length, take, drop, c_string, str_eq, starts_with,
  find_text,
}
use icecast_server.Mp3.Types.{Mp3State, Read, got, no_data, read_error}

-- `REFBUF_SIZE`
abbrev pub refbuf_size : ℕ
refbuf_size = 1400

abbrev pub stored : Option Bytes → Bytes
stored none = []
stored (some bytes) = bytes

-- After a read without an error: `read_data`, and whether it is complete.
unfoldable pub keep_read : Bytes → Option Bytes × Bool
keep_read bytes =
    if ltb (length bytes) refbuf_size
    then (if length bytes == 0 then none else some bytes, false)
    else (some bytes, true)

unfoldable pub complete_read : Option Bytes → Read → Option Bytes × Bool
unfolding keep_read
complete_read read_data (got bytes) = keep_read (stored read_data ++ bytes)
complete_read read_data no_data = (some (stored read_data), false)
complete_read read_data read_error = (none, false)

-- The state, the audio that is left of the read data, and whether the stream was ended.
pub record Filtered : Type 0 where
  pub state : Mp3State
  pub audio : Bytes
  pub ended : Bool

-- `strcmp(build_metadata + 1, metadata->data + 1) != 0`, where the block is longer than a byte
unfoldable pub is_new : Mp3State → Bytes → Bool
unfolding c_string str_eq
is_new s built =
    ltb 1 s.build_metadata_len
    && not (str_eq (c_string (drop 1 built)) (c_string (drop 1 s.metadata)))

abbrev pub no_block : Mp3State → Mp3State
no_block s = record s { offset = 0; build_metadata_len = 0; build_metadata = [] }

-- A complete block is taken, or ends the stream.
unfoldable pub take_block : Mp3State → Bytes → Option Mp3State
unfolding is_new starts_with find_text c_string
take_block s built =
    if not (is_new s built)
    then some (no_block s)
    else if starts_with (codes "StreamTitle=") (drop 1 built)
    then some (record (no_block s) {
      metadata = built;
      inline_url = find_text (codes "StreamUrl='") (c_string (drop 1 built));
    })
    else none

-- `if (source_mp3->build_metadata_len == 0)`
unfoldable pub begin_block : Mp3State → Bytes → Mp3State
begin_block s [] = s
begin_block s (count ∷ rest) =
    if s.build_metadata_len == 0
    then record s { build_metadata_len = 1 + count * 16; build_metadata = [] }
    else s

-- The block as it is copied: its last byte is left out, and is a NUL.
unfoldable pub build : Mp3State → Bytes → Bytes
build s src =
    s.build_metadata ++ (take (s.build_metadata_len - length s.build_metadata - 1) src ++ 0 ∷ [])

unfoldable pub after_block : (Mp3State → Filtered) → Bytes → Mp3State → Option Mp3State → Filtered
after_block next audio s none = record { state = s; audio = audio; ended = true }
after_block next audio s (some s') = next s'

-- The part of a round where metadata is next.
unfoldable pub filter_block : (Mp3State → Bytes → Filtered) → Mp3State → Bytes → Bytes → Filtered
unfolding take_block build after_block
filter_block next s src audio =
    let remaining = s.build_metadata_len - length s.build_metadata in
    if ltb (length src) remaining
    then record {
      state = record s { build_metadata = s.build_metadata ++ src };
      audio = audio;
      ended = false;
    }
    else after_block (λ s'. next s' (drop remaining src)) audio s (take_block s (build s src))

-- The loop of `mp3_get_filter_meta`, for so many rounds at most.
unfoldable pub filter_loop : ℕ → Mp3State → Bytes → Bytes → Filtered
unfolding begin_block filter_block
filter_loop zero s src audio = record { state = s; audio = audio; ended = false }
filter_loop (suc rounds) s [] audio = record { state = s; audio = audio; ended = false }
filter_loop (suc rounds) s (b ∷ src) audio =
    let mp3_block = s.inline_metadata_interval - s.offset in
    let to_metadata =
      filter_loop rounds (record s { offset = s.offset + mp3_block }) (drop mp3_block (b ∷ src))
        (audio ++ take mp3_block (b ∷ src)) in
    let block =
      filter_block (λ s' rest. filter_loop rounds s' rest audio) (begin_block s (b ∷ src)) (b ∷ src)
        audio in
    if leb (suc (length src)) mp3_block
    then record {
      state = record s { offset = s.offset + suc (length src) };
      audio = audio ++ b ∷ src;
      ended = false;
    }
    else if not (mp3_block == 0)
    then to_metadata
    else block

-- The loop on the whole of the read data. A round takes one byte at least.
unfoldable pub filter_meta : Mp3State → Bytes → Filtered
unfolding filter_loop
filter_meta s src = filter_loop (length src) s src []
