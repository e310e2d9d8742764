-- ===== src/Mp3/Reader.antt =====
-- What a reader makes of the audio and the blocks of a stream, and when the state of
-- `mp3_get_filter_meta` of src/format_mp3.c is that of the description.
use icecast_server.Prelude.{
  ◌≤◌, ◌<◌, ◌≡◌, sym, ap, ◌∙◌, ◌⊎◌, Bool, true, false, not, ◌&&◌, Option, List, [], ◌∷◌, ◌++◌, ltb,
  if◌then◌else◌, Bytes, codes, length, drop, c_string, str_eq, starts_with, find_text, map,
  append_assoc, append-nil,
}
use icecast_server.Mp3.{Mp3State, Filtered}
use icecast_server.Mp3.Demux.{Output, audio, block, Demux, block_size}

-- What a reader of the stream has: the current metadata, the link in it, the audio, and whether the
-- stream was ended for a block that is no title.
pub record View : Type 0 where
  pub metadata : Bytes
  pub inline_url : Option Bytes
  pub heard : Bytes
  pub ended : Bool

-- A block whose last byte is made a NUL.
abbrev pub seal : Bytes → Bytes
seal [] = []
seal (x ∷ []) = 0 ∷ []
seal (x ∷ y ∷ rest) = x ∷ seal (y ∷ rest)

abbrev pub is_fresh : View → Bytes → Bool
is_fresh v p =
    ltb 1 (length p) && not (str_eq (c_string (drop 1 (seal p))) (c_string (drop 1 v.metadata)))

-- An empty block and the text that is there change nothing; a new title is taken.
abbrev pub consume : View → List Output → View
consume v [] = v
consume v (audio b ∷ rest) = consume (record v { heard = v.heard ++ b ∷ [] }) rest
consume v (block p ∷ rest) =
    if not (is_fresh v p)
    then consume v rest
    else if starts_with (codes "StreamTitle=") (drop 1 (seal p))
    then consume
        (record v {
          metadata = seal p;
          inline_url = find_text (codes "StreamUrl='") (c_string (drop 1 (seal p)));
        })
        rest
    else record v { ended = true }

-- A block is begun.
pub record Begun (s : Mp3State) : Type 0 where
  pub some_bytes : 0 < length s.build_metadata
  pub not_all : length s.build_metadata < s.build_metadata_len
  pub size : s.build_metadata_len ≡ block_size s.build_metadata
  pub at_end : s.offset ≡ s.inline_metadata_interval

-- The state of the code is that of the description.
pub record Shows (s : Mp3State) (d : Demux) : Type 0 where
  pub interval : d.interval ≡ s.inline_metadata_interval
  pub since : d.since ≡ s.offset
  pub within : s.offset ≤ s.inline_metadata_interval
  pub part : d.part ≡ s.build_metadata
  pub block : ((s.build_metadata ≡ []) × (s.build_metadata_len ≡ 0)) ⊎ Begun s

abbrev pub view_of : Mp3State → Bytes → View
view_of s bytes = record {
  metadata = s.metadata;
  inline_url = s.inline_url;
  heard = bytes;
  ended = false;
}

pub record Agrees (f : Filtered) (d : Demux) (v : View) : Type 0 where
  pub heard : f.audio ≡ v.heard
  pub ended : f.ended ≡ v.ended
  pub current :
      v.ended ≡ false → (f.state.metadata ≡ v.metadata) × (f.state.inline_url ≡ v.inline_url)
  pub shows : v.ended ≡ false → Shows f.state d

pub consume-audio :
    (xs : Bytes) (v : View) (rest : List Output)
    → consume v (map audio xs ++ rest) ≡ consume (record v { heard = v.heard ++ xs }) rest
consume-audio [] v rest =
    ap (λ (h : Bytes). consume (record v { heard = h }) rest) (sym (append-nil v.heard))
consume-audio (x ∷ xs) v rest =
    consume-audio xs (record v { heard = v.heard ++ x ∷ [] }) rest
    ∙ ap (λ (h : Bytes). consume (record v { heard = h }) rest) (append_assoc v.heard (x ∷ []) xs)
