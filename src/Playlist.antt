-- ===== src/Playlist.antt =====
-- The playlist of a source: src/playlist.c, but for its XML.
--
-- A comment of the stream is what `vorbis_comment_query` returns for a key. NULL is `none`, and an
-- allocation does not fail.
pub mod Kept
use icecast_server.Prelude.{
  ℕ, ◌+◌, ◌-◌, Bool, true, false, not, ◌&&◌, List, [], ◌∷◌, ◌++◌, Option, none, some, Bytes, codes,
  ℤ, pos, negsuc, ltb, ◌==◌, if◌then◌else◌, length,
}

pub record Track : Type 0 where
  pub title : Option Bytes
  pub creator : Option Bytes
  pub album : Option Bytes
  pub track_num : Option Bytes

pub record Playlist : Type 0 where
  pub refc : ℕ
  pub max_tracks : ℤ
  pub tracks : List Track

abbrev pub Comment : Type 0
Comment = Bytes → Option Bytes

-- What `calloc` returns.
abbrev pub blank : Track
blank = record { title = none; creator = none; album = none; track_num = none }

abbrev pub playlist_new : ℤ → Playlist
playlist_new max_tracks = record { refc = 1; max_tracks = max_tracks; tracks = [] }

unfoldable pub playlist_ref : Playlist → Playlist
playlist_ref p = record p { refc = p.refc + 1 }

-- `none`: it was freed with its tracks.
unfoldable pub playlist_release : Playlist → Option Playlist
playlist_release p = if p.refc - 1 == 0 then none else some (record p { refc = p.refc - 1 })

unfoldable pub set_max_tracks : ℤ → Playlist → Playlist
set_max_tracks max_tracks p = record p { max_tracks = max_tracks }

-- `playlist->max_tracks > 0 && num > playlist->max_tracks`
unfoldable pub is_over : ℤ → ℕ → Bool
is_over (pos m) num = not (m == 0) && ltb m num
is_over (negsuc m) num = false

-- The loop that frees the first tracks.
unfoldable pub drop_tracks : ℤ → ℕ → List Track → List Track
unfolding is_over
drop_tracks max num [] = []
drop_tracks max num (t ∷ ts) =
    let rest = drop_tracks max (num - 1) ts in if is_over max num then rest else t ∷ ts

is_none : Option Bytes → Bool
is_none none = true
is_none (some v) = false

-- The tags of the track, which is blank where there is no comment.
unfoldable pub read_tags : Option Comment → Track → Track
unfolding is_none
read_tags none t = t
read_tags (some query) t =
    let tagged : Track = record {
      title = query (codes "TITLE");
      creator = query (codes "ARTIST");
      album = query (codes "ALBUM");
      track_num = query (codes "TRACKNUMBER");
    } in
    if is_none tagged.title
      && is_none tagged.creator
      && is_none tagged.album
      && is_none tagged.track_num
    then record tagged { title = query (codes "X_ICY_TITLE") }
    else tagged

-- A write through the pointer to the track that was appended last.
unfoldable pub write_last : (Track → Track) → List Track → List Track
write_last f [] = []
write_last f (t ∷ []) = f t ∷ []
write_last f (t ∷ u ∷ ts) = t ∷ write_last f (u ∷ ts)

unfoldable pub push_track : Option Comment → Playlist → Playlist
unfolding drop_tracks read_tags write_last
push_track vc p =
    let num = length p.tracks + 1 in
    let left = drop_tracks p.max_tracks num (p.tracks ++ blank ∷ []) in
    record p { tracks = write_last (read_tags vc) left }
