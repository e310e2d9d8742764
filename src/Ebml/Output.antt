-- ===== src/Ebml/Output.antt =====
-- `ebml_read_space`, `ebml_read` and `ebml_get_buffer` of src/format_ebml.c.
use icecast_server.Prelude.{
  take, length, drop, Bytes, zero, suc, ◌+◌, ◌-◌, Bool, true, false, Option, none, some, List, [],
  ◌∷◌, ◌==◌, if◌then◌else◌, ℕ,
}
use icecast_server.Ebml.State.{
  ReadMode, Ebml, reading_header, reading_clusters, KeyframeStatus, keyframe_unknown,
  does_not_start, starts_cluster, slice_size,
}
use icecast_server.Ebml.Parser.{at_most, Wrote, wrote, failed, out_of_fuel, ebml_wrote}

-- `if (ebml->position == EBML_SLICE_SIZE) ebml->flush_cluster = true`
unfoldable pub flush_if_full : Ebml → Ebml
flush_if_full s = if length s.buffer == slice_size then record s { flush_cluster = true } else s

abbrev pub what_we_have : Ebml → ℕ
what_we_have s = if s.flush_cluster then length s.buffer else 0

-- What can be read of the clusters, where a new one starts at `cluster_start`.
unfoldable pub cluster_space : Option ℕ → Ebml → Ebml × ℕ
unfolding flush_if_full
cluster_space none s = let s' = flush_if_full s in (s', what_we_have s')
cluster_space (some zero) s = let s' = flush_if_full s in (s', what_we_have s')
cluster_space (some (suc n)) s = (s, suc n)

unfoldable pub space_in : ReadMode → Ebml → Ebml × ℕ
unfolding cluster_space
space_in reading_header s = (s, s.header_size)
space_in reading_clusters s = cluster_space s.cluster_start s

-- `ebml_read_space`
unfoldable pub read_space : Ebml → Ebml × ℕ
unfolding space_in
read_space s = space_in s.output_state s

-- `ebml_chunk_type`
pub data ChunkType : Type 0 where
  chunk_header cluster_begins cluster_continues : ChunkType

pub record Chunk : Type 0 where
  pub type : ChunkType
  pub bytes : Bytes

-- A chunk of the header, which is always taken from its start.
unfoldable pub read_header_chunk : Ebml → ℕ → Ebml × Chunk
read_header_chunk s len =
    let to_read = at_most (s.header_size - s.header_read_position) len in
    let position = s.header_read_position + to_read in
    if s.header_size == 0 then (s, record { type = chunk_header; bytes = [] }) else (
      record s {
        header_read_position = position;
        output_state = (if position == s.header_size then reading_clusters else s.output_state);
      },
      record { type = chunk_header; bytes = take to_read s.header },
    )

-- The bytes leave the buffer.
unfoldable pub take_chunk : ChunkType → ℕ → Ebml → Ebml × Chunk
take_chunk type to_read s = (
  record s { buffer = drop to_read s.buffer },
  record { type = type; bytes = take to_read s.buffer },
)

abbrev pub type_of : KeyframeStatus → ChunkType
type_of keyframe_unknown = cluster_begins
type_of does_not_start = cluster_continues
type_of starts_cluster = cluster_begins

unfoldable pub read_cluster : Option ℕ → Ebml → ℕ → Ebml × Chunk
unfolding take_chunk
read_cluster none s len = take_chunk cluster_continues (at_most (length s.buffer) len) s
read_cluster (some zero) s len =
    take_chunk (type_of s.cluster_starts_with_keyframe) (at_most (length s.buffer) len)
      (record s { cluster_start = none })
read_cluster (some (suc n)) s len =
    let to_read = at_most (suc n) len in
    take_chunk cluster_continues to_read (record s { cluster_start = some (suc n - to_read) })

unfoldable pub read_in : ReadMode → Ebml → ℕ → Ebml × Chunk
unfolding read_header_chunk read_cluster
read_in reading_header s len = read_header_chunk s len
read_in reading_clusters s len = read_cluster s.cluster_start s len

-- `ebml_read`, for a buffer of `len` bytes, not 0
unfoldable pub ebml_read : Ebml → ℕ → Ebml × Chunk
unfolding read_in
ebml_read s len = read_in s.output_state s len

-- `ebml_source_state_t`, with what `ebml_get_buffer` changes of the source.
pub record EbmlSource : Type 0 where
  pub ebml : Ebml
  pub header : Option Bytes
  pub running : Bool

pub record Refbuf : Type 0 where
  pub bytes : Bytes
  pub sync_point : Bool

abbrev pub is_sync : ChunkType → Bool
is_sync cluster_begins = true
is_sync _ = false

-- `if (read_bytes > 0)`
unfoldable pub read_some : Ebml × ℕ → Ebml × Option Chunk
unfolding ebml_read
read_some (s, zero) = (s, none)
read_some (s, suc n) = let (s', chunk) = ebml_read s (suc n) in (s', some chunk)

-- The chunk that is available, if one is.
unfoldable pub read_available : Ebml → Ebml × Option Chunk
unfolding read_space read_some
read_available s = read_some (read_space s)

abbrev pub to_refbuf : Chunk → Refbuf
to_refbuf c = record { bytes = c.bytes; sync_point = is_sync c.type }

abbrev pub to_refbuf? : Option Chunk → Option Refbuf
to_refbuf? none = none
to_refbuf? (some c) = some (to_refbuf c)

-- A round that reads when the header has been captured.
unfoldable pub read_data : EbmlSource → EbmlSource × Option Refbuf
unfolding read_available
read_data s =
    let (ebml, chunk) = read_available s.ebml in (record s { ebml = ebml }, to_refbuf? chunk)

-- The first chunk is captured, and then comes the next round.
unfoldable pub capture : EbmlSource → Option Chunk → EbmlSource × Option Refbuf
unfolding read_data
capture s none = (s, none)
capture s (some c) = read_data (record s { header = some c.bytes })

unfoldable pub read_rounds : Option Bytes → EbmlSource → EbmlSource × Option Refbuf
unfolding read_available capture read_data
read_rounds none s =
    let (ebml, chunk) = read_available s.ebml in capture (record s { ebml = ebml }) chunk
read_rounds (some header) s = read_data s

-- What became of a call: a buffer, or NULL; what the client has still to give; and whether a call of
-- `ebml_wrote` did not return the length.
pub record Got : Type 0 where
  pub source : EbmlSource
  pub refbuf : Option Refbuf
  pub rest : List Bytes
  pub problem : Bool

unfoldable pub no_bytes_wrote : EbmlSource → Wrote → Got
no_bytes_wrote s (wrote ebml) = record {
  source = record s { ebml = ebml };
  refbuf = none;
  rest = [];
  problem = false;
}
no_bytes_wrote s (failed ebml) = record {
  source = record s { ebml = ebml };
  refbuf = none;
  rest = [];
  problem = true;
}
no_bytes_wrote s (out_of_fuel ebml) = record {
  source = record s { ebml = ebml };
  refbuf = none;
  rest = [];
  problem = true;
}

-- The client gave no bytes: the result of `ebml_wrote` is not looked at.
unfoldable pub no_bytes : EbmlSource → Got
unfolding ebml_wrote no_bytes_wrote
no_bytes s = no_bytes_wrote s (ebml_wrote s.ebml [])

unfoldable pub after_wrote : (EbmlSource → Got) → EbmlSource → List Bytes → Wrote → Got
after_wrote next s rest (wrote ebml) = next (record s { ebml = ebml })
after_wrote next s rest (failed ebml) = record {
  source = record s { ebml = ebml; running = false };
  refbuf = none;
  rest = rest;
  problem = true;
}
after_wrote next s rest (out_of_fuel ebml) = record {
  source = record s { ebml = ebml };
  refbuf = none;
  rest = rest;
  problem = true;
}

unfoldable pub after_read : (EbmlSource → Got) → List Bytes → EbmlSource × Option Refbuf → Got
after_read feed rest (s, some refbuf) = record {
  source = s;
  refbuf = some refbuf;
  rest = rest;
  problem = false;
}
after_read feed rest (s, none) = feed s

-- `ebml_get_buffer`, for what the coming calls of `client_read_bytes` give, each at most the space that
-- `ebml_get_write_buffer` tells; after them there is nothing to read.
unfoldable pub get_buffer : List Bytes → EbmlSource → Got
unfolding read_rounds no_bytes after_wrote after_read ebml_wrote
get_buffer [] s = after_read no_bytes [] (read_rounds s.header s)
get_buffer (bytes ∷ more) s =
    after_read (λ s'. after_wrote (get_buffer more) s' more (ebml_wrote s'.ebml bytes))
      (bytes ∷ more) (read_rounds s.header s)
