-- ===== src/Tests/Mp3.antt =====
-- Tests of `Mp3`.
use icecast_server.Prelude.{
  drop, ◌+◌, Option, if◌then◌else◌, ℕ, suc, ◌≤◌, ◌<◌, ◌≡◌, refl, inl, true, false, none, some, List,
  [], ◌∷◌, ◌++◌, arith, Bytes, codes, pos, length, replicate,
}
use icecast_server.Listener.{accepts}
use icecast_server.Mp3.{
  comments_of, set_tag, has_key, Plugin, block_text, Mp3State, Mp3Client, got, filter_meta,
  set_title, title_len, max_meta_len, Comments, Meta, Sender, write_buf_to_client, read_stream,
  SourceCall, tagged, read, TagLibrary,
}
use icecast_server.Mp3.Demux.{Demux, feed, block_size}
use icecast_server.Mp3.Reader.{Shows, Agrees, consume, view_of}
use icecast_server.Mp3.Demuxed.{filter_meta-Demuxed}
use icecast_server.Mp3.Wire.{Tuned, Emits, Prefix}
use icecast_server.Mp3.Written.{write_buf_to_client-Demuxed}
use icecast_server.Mp3.Titled.{title_text, set_title-whole}
use icecast_server.Mp3.Session.{InStep, concat_bytes, read_stream-InStep}

abbrev fresh : Mp3State
fresh = record {
  inline_metadata_interval = 2;
  offset = 0;
  interval = pos 2;
  inline_url = none;
  update_metadata = false;
  metadata = 1 ∷ codes "StreamTitle='';";
  read_data = none;
  build_metadata_len = 0;
  build_metadata = [];
}

abbrev start : Demux
start = record { interval = 2; since = 0; part = [] }

fresh-Shows : Shows fresh start
fresh-Shows = record {
  interval = refl;
  since = refl;
  within = omega arith;
  part = refl;
  block = inl (refl, refl);
}

-- Two bytes of audio, an empty block, and one byte of audio.
abbrev sent : Bytes
sent = 10 ∷ 11 ∷ 0 ∷ 12 ∷ []

filters : (filter_meta fresh sent).audio ≡ 10 ∷ 11 ∷ 12 ∷ []
unfolding filter_meta
filters = refl

filter_meta-Demuxed_example :
    Agrees
      (filter_meta fresh sent)
      (feed start sent).0
      (consume (view_of fresh []) (feed start sent).1)
filter_meta-Demuxed_example = filter_meta-Demuxed fresh start sent fresh-Shows

abbrev vc : Comments
vc = record { artist = some (codes "A"); title = some (codes "B"); url = none }

-- The first comment whose key is the tag.
first_value : List Bytes → Bytes → Option Bytes
unfolding has_key
first_value [] tag = none
first_value (comment ∷ vc) tag =
    if has_key tag comment then some (drop (length tag + 1) comment) else first_value vc tag

abbrev value_or_empty : Option Bytes → Bytes
value_or_empty none = []
value_or_empty (some value) = value

count : List Bytes → Bytes → ℕ
unfolding has_key
count [] tag = 0
count (comment ∷ vc) tag = if has_key tag comment then suc (count vc tag) else count vc tag

abbrev lib : TagLibrary
lib = record {
  query_count = count;
  query = first_value;
  add = λ vc comment. vc ++ comment ∷ [];
  add_tag = λ vc tag value. vc ++ (tag ++ b'=' ∷ value_or_empty value) ∷ [];
  convert = λ string from to. none;
}

-- A format with an artist, and a comment that the code does not read.
abbrev plugin : Plugin
plugin = record {
  user_comments = codes "x_icy_title=old" ∷ codes "X_ICY_TITLES=no" ∷ codes "X_ICY_ARTIST=A" ∷ [];
  charset = some (codes "ISO8859-1");
}

abbrev retitled : Plugin
retitled = (set_tag lib (some (codes "song")) (some (codes "X")) none plugin fresh).0

replaces_comment :
    retitled.user_comments
    ≡ codes "X_ICY_TITLES=no" ∷ codes "X_ICY_ARTIST=A" ∷ codes "X_ICY_TITLE=X" ∷ []
unfolding set_tag count
replaces_comment = refl

makes_title :
    (set_title (comments_of lib retitled) fresh).metadata
    ≡ 2 ∷ (codes "StreamTitle='A - X';" ++ replicate 12 0)
unfolding set_title set_tag comments_of first_value count
makes_title = refl

-- A source that sends a block of metadata after each 1395 bytes.
abbrev new_source : Mp3State
new_source = record fresh { inline_metadata_interval = 1395 }

abbrev long_start : Demux
long_start = record { interval = 1395; since = 0; part = [] }

-- The title is set twice. The second read is complete and ends in a block, which the third goes on with.
abbrev calls : List SourceCall
calls =
    tagged (some (codes "song")) (some (codes "X")) none
    ∷ tagged none none none
    ∷ read (got (replicate 1390 10))
    ∷ read (got (replicate 5 11 ++ (1 ∷ codes "Stre")))
    ∷ tagged (some (codes "song")) (some (codes "Y")) none
    ∷ tagged none none none
    ∷ read (got (codes "amTitle='C';" ++ replicate 1388 12))
    ∷ []

keeps_running : (read_stream lib calls plugin new_source []).2 ≡ true
unfolding read_stream first_value count
keeps_running = refl

-- All audio was returned. The block of the source came after the second title, and took its place.
returns_audio :
    (read_stream lib calls plugin new_source []).1
    ≡ replicate 1390 10 ++ (replicate 5 11 ++ replicate 1388 12)
unfolding read_stream first_value count
returns_audio = refl

takes_metadata :
    (read_stream lib calls plugin new_source []).0.metadata
    ≡ 1 ∷ (codes "StreamTitle='C'" ++ 0 ∷ [])
unfolding read_stream first_value count
takes_metadata = refl

new_source-InStep : InStep new_source [] long_start []
new_source-InStep = record {
  now = long_start;
  took = [];
  outs = [];
  fed = unfold feed in refl;
  shows = record {
    interval = refl;
    since = refl;
    within = omega arith;
    part = refl;
    block = inl (refl, refl);
  };
  sound_heard = refl;
  all = refl;
}

read_stream-InStep_example :
    InStep
      (read_stream lib calls plugin new_source []).0
      ([] ++ concat_bytes calls)
      long_start
      (read_stream lib calls plugin new_source []).1
read_stream-InStep_example =
    read_stream-InStep long_start lib calls plugin new_source [] []
      (tt, (tt, (tt, (tt, (tt, (tt, (tt, tt))))))) new_source-InStep keeps_running

-- A link of a comment: 16 bytes, and 13 more than the link.
abbrev linked : ℕ → Comments
linked n = record { artist = none; title = none; url = some (replicate n 104) }

counts_link : title_len none (linked 3) ≡ 32
unfolding title_len
counts_link = refl

longest_link : title_len none (linked 4051) ≡ max_meta_len
unfolding title_len
longest_link = refl

sets_link :
    (set_title (linked 3) fresh).metadata ≡ 2 ∷ (codes "StreamTitle='';StreamUrl='hhh';" ++ 0 ∷ [])
unfolding set_title
sets_link = refl

set_title-whole_example :
    (title_len none (linked 4051) ≤ max_meta_len
      → (len_byte n : ℕ) × ((set_title (linked 4051) fresh).metadata
          ≡ len_byte ∷ (title_text (linked 4051) ++ replicate (suc n) 0))
        × (len_byte < 256)
        × (length (set_title (linked 4051) fresh).metadata
            ≡ block_size (set_title (linked 4051) fresh).metadata))
    × (max_meta_len < title_len none (linked 4051) → set_title (linked 4051) fresh ≡ fresh)
set_title-whole_example = set_title-whole (linked 4051) fresh refl

abbrev listener_state : Mp3Client
listener_state = record {
  interval = 2;
  metadata_offset = 0;
  since_meta_block = 0;
  in_metadata = false;
  associated = none;
}

abbrev sender : Sender
sender = record {
  client = listener_state;
  pos = 0;
  socket = accepts 100 ∷ accepts 5 ∷ accepts 100 ∷ accepts 100 ∷ [];
  con_error = false;
  wire = [];
}

abbrev title : Meta
title = record { id = 1; text = 1 ∷ (codes "StreamTitle='A';") }

sender-Tuned : Tuned (some title) listener_state start
unfolding block_text
sender-Tuned = record {
  interval = refl;
  positive = omega arith;
  since = refl;
  within = omega arith;
  part = refl;
  offset = omega arith;
  between = λ e. refl;
  inside = λ e. cc;
}

abbrev buffer : Bytes
buffer = 20 ∷ 21 ∷ 22 ∷ 23 ∷ []

write_buf_to_client-Demuxed_example :
    (d' : Demux) × (bytes : Bytes) × Emits
      (some title)
      sender
      start
      (write_buf_to_client (some title) buffer sender).sender
      d'
      bytes
    × Tuned (some title) (write_buf_to_client (some title) buffer sender).sender.client d'
    × Prefix bytes buffer
write_buf_to_client-Demuxed_example =
    write_buf_to_client-Demuxed (some title) refl buffer sender start sender-Tuned
