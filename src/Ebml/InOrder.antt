-- ===== src/Ebml/InOrder.antt =====
-- What is kept of a stream while the parser works on it.
use icecast_server.Prelude.{
  drop, starts_with, All, length, Bytes, ◌+◌, ◌≤◌, ◌<◌, ◌≡◌, ◌⊎◌, Bool, true, false, Option, none,
  some, [], ◌++◌, ℕ,
}
use icecast_server.Ebml.Numbers.{parsed, parse_tag}
use icecast_server.Ebml.State.{
  ReadMode, reading_header, reading_clusters, ParsingState, parsing_header, copying_to_header,
  start_cluster, parsing_clusters, copying_to_data, Ebml, cluster_magic, header_max_size,
  slice_size,
}
use icecast_server.Ebml.Digits.{IsByte}

-- The fields that the order of the bytes depends on.
pub record View : Type 0 where
  pub output_state : ReadMode
  pub parse_state : ParsingState
  pub copy_len : ℕ
  pub cluster_start : Option ℕ
  pub flush_cluster : Bool
  pub buffer : Bytes
  pub header : Bytes
  pub header_size : ℕ
  pub header_read_position : ℕ

abbrev pub view : Ebml → View
view s = record {
  output_state = s.output_state;
  parse_state = s.parse_state;
  copy_len = s.copy_len;
  cluster_start = s.cluster_start;
  flush_cluster = s.flush_cluster;
  buffer = s.buffer;
  header = s.header;
  header_size = s.header_size;
  header_read_position = s.header_read_position;
}

-- What a state of the parser needs, with the bytes that it has still to parse.
pub record IsClusterTag (todo : Bytes) : Type 0 where
  pub length_of : ℕ
  pub payload : ℕ
  pub parses : parse_tag todo ≡ parsed length_of payload
  pub long : 4 < length_of
  pub magic : starts_with cluster_magic todo ≡ true

abbrev pub StateFits : ParsingState → ℕ → Bytes → Type 0
StateFits parsing_header copy_len todo = Unit
StateFits parsing_clusters copy_len todo = Unit
StateFits copying_to_header copy_len todo = 0 < copy_len
StateFits copying_to_data copy_len todo = 0 < copy_len
StateFits start_cluster copy_len todo = IsClusterTag todo

-- The header is still being copied.
abbrev pub in_header : ParsingState → Bool
in_header parsing_header = true
in_header copying_to_header = true
in_header _ = false

-- No cluster has begun.
abbrev pub is_early : ParsingState → Bool
is_early parsing_header = true
is_early copying_to_header = true
is_early start_cluster = true
is_early _ = false

pub record BeforeClusters (v : View) (sent : Bytes) : Type 0 where
  pub early : is_early v.parse_state ≡ true
  pub none_sent : sent ≡ []
  pub empty : v.buffer ≡ []
  pub no_start : v.cluster_start ≡ none
  pub no_size : v.header_size ≡ 0

-- Or the header is whole.
abbrev pub HeaderFits : View → Bytes → Type 0
HeaderFits v sent =
    BeforeClusters v sent ⊎ ((v.header_size ≡ length v.header) × (in_header v.parse_state ≡ false))

-- The header has not been read, or was there to read.
abbrev pub ReaderFits : View → Type 0
ReaderFits v =
    ((v.output_state ≡ reading_header) × (v.header_read_position ≡ 0))
    ⊎ ((v.output_state ≡ reading_clusters) × (0 < v.header_size))

-- The magic of the cluster at `cluster_start` is in the buffer, or on the way there.
abbrev pub Shown : ℕ → View → Type 0
Shown start v =
    (start + 4 ≤ length v.buffer)
    ⊎ ((v.parse_state ≡ copying_to_data)
        × (v.flush_cluster ≡ false)
        × (start + 4 ≤ length v.buffer + v.copy_len))

pub record ClusterAt (start : ℕ) (v : View) (todo : Bytes) : Type 0 where
  pub within : start ≤ length v.buffer
  pub magic : starts_with cluster_magic (drop start v.buffer ++ todo) ≡ true
  pub shown : Shown start v

abbrev pub StartFits : Option ℕ → View → Bytes → Type 0
StartFits none v todo = Unit
StartFits (some start) v todo = ClusterAt start v todo

-- Whether the header has been captured, and which it is.
abbrev pub Captured : Option Bytes → ReadMode → Bytes → Type 0
Captured none mode whole = mode ≡ reading_header
Captured (some header) mode whole = (mode ≡ reading_clusters) × (header ≡ whole)

-- The bytes that came, in the order of the header, what was sent, the buffer, and what is to be parsed.
pub record InOrder (captured : Option Bytes) (came sent : Bytes) (v : View) (todo : Bytes)
    : Type 0 where
  pub order : v.header ++ (sent ++ (v.buffer ++ todo)) ≡ came
  pub bytes : All IsByte todo
  pub state : StateFits v.parse_state v.copy_len todo
  pub header : HeaderFits v sent
  pub kept : Captured captured v.output_state v.header
  pub reader : ReaderFits v
  pub start : StartFits v.cluster_start v todo
  pub buffer_within : length v.buffer ≤ slice_size
  pub header_within : length v.header ≤ header_max_size
