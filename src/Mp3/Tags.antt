-- ===== src/Mp3/Tags.antt =====
-- The comments of a source and how they are changed: `mp3_set_tag` of src/format_mp3.c,
-- `format_set_vorbiscomment` of src/format.c and the guards of `util_conv_string` of src/util.c.
use icecast_server.Prelude.{
  ℕ, Bool, true, false, ◌||◌, ◌&&◌, ◌==◌, Option, none, some, List, [], ◌∷◌, if◌then◌else◌, Bytes,
  codes, length, take, drop, str_eq, str_case_eq,
}
use icecast_server.Mp3.Types.{Mp3State}
use icecast_server.Mp3.Title.{Comments}

-- `vc.user_comments` and `charset` of a format.
pub record Plugin : Type 0 where
  pub user_comments : List Bytes
  pub charset : Option Bytes

-- What is called of libvorbis, on the comments: `vorbis_comment_query_count`, `vorbis_comment_query`
-- of the first value, `vorbis_comment_add` and `vorbis_comment_add_tag`; and of libxml, to convert a
-- text from a charset to another.
pub record TagLibrary : Type 0 where
  pub query_count : List Bytes → Bytes → ℕ
  pub query : List Bytes → Bytes → Option Bytes
  pub add : List Bytes → Bytes → List Bytes
  pub add_tag : List Bytes → Bytes → Option Bytes → List Bytes
  pub convert : Bytes → Bytes → Bytes → Option Bytes

-- The key of a tag: `MP3_METADATA_TITLE`, `MP3_METADATA_ARTIST`, `MP3_METADATA_URL` or the tag.
abbrev metadata_title : Bytes
metadata_title = codes "X_ICY_TITLE"

abbrev metadata_artist : Bytes
metadata_artist = codes "X_ICY_ARTIST"

abbrev metadata_url : Bytes
metadata_url = codes "X_ICY_URL"

unfoldable pub tag_key : Bytes → Bytes
unfolding str_eq
tag_key tag =
    if str_eq tag (codes "title") || str_eq tag (codes "song")
    then metadata_title
    else if str_eq tag (codes "artist")
    then metadata_artist
    else if str_eq tag (codes "url")
    then metadata_url
    else tag

abbrev begins_value : Bytes → Bool
begins_value [] = false
begins_value (c ∷ _) = c == b'='

-- `strncasecmp(comment, tag, keylen) == 0 && comment[keylen] == '='`
unfoldable pub has_key : Bytes → Bytes → Bool
unfolding str_case_eq
has_key tag comment =
    str_case_eq (take (length tag) comment) tag && begins_value (drop (length tag) comment)

module _ (lib : TagLibrary) where
  -- The comments that are kept, added to those of the new structure.
  unfoldable pub copy_comments : Bytes → List Bytes → List Bytes → List Bytes
  unfolding has_key
  copy_comments tag [] vc = vc
  copy_comments tag (comment ∷ comments) vc =
      let skipped = copy_comments tag comments vc in
      let copied = copy_comments tag comments (lib.add vc comment) in
      if has_key tag comment then skipped else copied

  unfoldable pub set_vorbiscomment : Plugin → Bytes → Option Bytes → Plugin
  unfolding copy_comments
  set_vorbiscomment plugin tag value =
      let vc = plugin.user_comments in
      let kept = if lib.query_count vc tag == 0 then vc else copy_comments tag vc [] in
      record plugin { user_comments = lib.add_tag kept tag value }

  -- `util_conv_string`
  unfoldable pub conv_string : Option Bytes → Option Bytes → Option Bytes → Option Bytes
  conv_string (some string) (some in_charset) (some out_charset) =
      lib.convert string in_charset out_charset
  conv_string _ _ _ = none

  -- The value in the charset of the format, or as it is if it cannot be converted.
  unfoldable pub tag_value : Option Bytes → Option Bytes → Option Bytes → Option Bytes
  unfolding conv_string
  tag_value in_value in_charset charset = elim (conv_string in_value in_charset charset) [
    | none ↦ in_value
    | some value ↦ some value
  ]

  -- `mp3_set_tag`, where no tag is NULL
  unfoldable pub set_tag :
      Option Bytes → Option Bytes → Option Bytes → Plugin → Mp3State → Plugin × Mp3State
  unfolding tag_key tag_value set_vorbiscomment
  set_tag none in_value in_charset plugin s = (plugin, record s { update_metadata = true })
  set_tag (some tag) in_value in_charset plugin s =
      (set_vorbiscomment plugin (tag_key tag) (tag_value in_value in_charset plugin.charset), s)

  -- The comments that `mp3_set_title` asks for.
  unfoldable pub comments_of : Plugin → Comments
  comments_of plugin = record {
    artist = lib.query plugin.user_comments metadata_artist;
    title = lib.query plugin.user_comments metadata_title;
    url = lib.query plugin.user_comments metadata_url;
  }
