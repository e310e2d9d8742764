-- ===== src/Ebml/State.antt =====
-- The state of the parser of src/format_ebml.c.
use icecast_server.Prelude.{Bytes, Bool, false, Option, none, [], ◌∷◌, ℕ}
use icecast_server.Ebml.Numbers.{unknown}

-- `ebml_read_mode`
pub data ReadMode : Type 0 where
  reading_header reading_clusters : ReadMode

-- `ebml_parsing_state`
pub data ParsingState : Type 0 where
  parsing_header copying_to_header start_cluster parsing_clusters copying_to_data : ParsingState

-- `ebml_keyframe_status`
pub data KeyframeStatus : Type 0 where
  keyframe_unknown does_not_start starts_cluster : KeyframeStatus

-- `ebml_t`. A buffer is the bytes up to its position; `cluster_start` is `none` for -1.
pub record Ebml : Type 0 where
  pub output_state : ReadMode
  pub parse_state : ParsingState
  pub copy_len : ℕ
  pub cluster_start : Option ℕ
  pub cluster_starts_with_keyframe : KeyframeStatus
  pub flush_cluster : Bool
  pub buffer : Bytes
  pub input_buffer : Bytes
  pub header : Bytes
  pub header_size : ℕ
  pub header_read_position : ℕ
  pub keyframe_track_number : ℕ
  pub parsing_track_number : ℕ
  pub parsing_track_is_video : Bool

abbrev pub header_max_size : ℕ
header_max_size = 131072

abbrev pub slice_size : ℕ
slice_size = 4096

-- `ebml_create`
abbrev pub ebml_create : Ebml
ebml_create = record {
  output_state = reading_header;
  parse_state = parsing_header;
  copy_len = 0;
  cluster_start = none;
  cluster_starts_with_keyframe = does_not_start;
  flush_cluster = false;
  buffer = [];
  input_buffer = [];
  header = [];
  header_size = 0;
  header_read_position = 0;
  keyframe_track_number = unknown;
  parsing_track_number = unknown;
  parsing_track_is_video = false;
}

abbrev pub cluster_magic : Bytes
cluster_magic = 0x1F ∷ 0x43 ∷ 0xB6 ∷ 0x75 ∷ []

abbrev pub segment_magic : Bytes
segment_magic = 0x18 ∷ 0x53 ∷ 0x80 ∷ 0x67 ∷ []

abbrev pub tracks_magic : Bytes
tracks_magic = 0x16 ∷ 0x54 ∷ 0xAE ∷ 0x6B ∷ []
