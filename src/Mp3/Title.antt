-- ===== src/Mp3/Title.antt =====
-- The metadata that the code makes of the comments: `mp3_set_title` of src/format_mp3.c; and the
-- interval of a listener.
use icecast_server.Prelude.{
  ℕ, suc, ◌+◌, ◌-◌, ◌*◌, ◌/◌, ◌%◌, Bool, Option, none, some, [], ◌∷◌, ◌++◌, ltb, if◌then◌else◌,
  Bytes, codes, length, take, drop, replicate, find_text, ℤ, pos, negsuc,
}
use icecast_server.Mp3.Types.{Mp3State}

-- What `vorbis_comment_query` returns for the three keys of MP3 metadata.
pub record Comments : Type 0 where
  pub artist : Option Bytes
  pub title : Option Bytes
  pub url : Option Bytes

abbrev pub opt_length : Option Bytes → ℕ
opt_length none = 0
opt_length (some s) = length s

abbrev pub both : Option Bytes → Option Bytes → ℕ
both (some a) (some t) = 3
both _ _ = 0

-- `end - inline_url + 2`, where `end` is the first "';"
unfoldable pub inline_length : Bytes → Option ℕ
unfolding find_text
inline_length inline_url = elim (find_text (codes "';") inline_url) [
  | none ↦ none
  | some rest ↦ some (length inline_url - length rest + 2)
]

abbrev pub or_zero : Option ℕ → ℕ
or_zero none = 0
or_zero (some n) = n

abbrev pub url_part : Option Bytes → Option Bytes → ℕ
url_part (some inline_url) url = or_zero (inline_length inline_url)
url_part none (some url) = length url + 11 + 2
url_part none none = 0

-- `len` of `mp3_set_title`
unfoldable pub title_len : Option Bytes → Comments → ℕ
unfolding inline_length
title_len inline_url vc =
    16
    + opt_length vc.artist
    + opt_length vc.title
    + both vc.artist vc.title
    + url_part inline_url vc.url

-- `MAX_META_LEN`
abbrev pub max_meta_len : ℕ
max_meta_len = 255 * 16

abbrev pub stream_title : Option Bytes → Option Bytes → Bytes
stream_title (some artist) (some title) =
    codes "StreamTitle='" ++ (artist ++ (codes " - " ++ (title ++ codes "';")))
stream_title none (some title) = codes "StreamTitle='" ++ (title ++ codes "';")
stream_title _ none = codes "StreamTitle='" ++ codes "';"

abbrev pub stream_url : Bytes → Bytes
stream_url url = codes "StreamUrl='" ++ (url ++ codes "';")

-- What `snprintf` puts into so many bytes, without the NUL.
abbrev pub printed : ℕ → Bytes → Bytes
printed room text = take (room - 1) text

abbrev pub size_or : ℕ → Option ℕ → ℕ
size_or size none = size
size_or size (some n) = n

-- What follows the title in a buffer of this size, after `r` bytes.
unfoldable pub title_url : Option Bytes → Option Bytes → ℕ → ℕ → Bytes
unfolding inline_length
title_url (some inline_url) url size r =
    if ltb (size_or size (inline_length inline_url)) (size - r)
    then printed (size - r) (stream_url (drop 11 inline_url))
    else []
title_url none (some url) size r = printed (size - r) (stream_url url)
title_url none none size r = []

abbrev pub pad : ℕ → Bytes → Bytes
pad size text = text ++ replicate (size - length text) 0

-- `mp3_set_title`, whose buffer is allocated
unfoldable pub set_title : Comments → Mp3State → Mp3State
unfolding title_len title_url
set_title vc s =
    let len = title_len s.inline_url vc in
    let len_byte = ((len - 1) / 16 + 1) % 256 in
    let size = len_byte * 16 + 1 in
    let title = len_byte ∷ stream_title vc.artist vc.title in
    let text = printed size title ++ title_url s.inline_url vc.url size (length title) in
    if ltb max_meta_len len then s else record s { metadata = pad size text }

-- `format_mp3_create_client_data`: the interval of a listener, 0 if it did not ask for metadata. The
-- source's interval is an `int`, where a negative one stands for the default.
abbrev pub icy_metadata_interval : ℕ
icy_metadata_interval = 16000

abbrev pub interval_or : ℤ → ℕ
interval_or (pos n) = n
interval_or (negsuc n) = icy_metadata_interval

unfoldable pub client_interval : Bool → ℤ → ℕ
client_interval asked interval = if asked then interval_or interval else 0

-- `format_mp3_apply_settings`: the interval of the mount, or of the source's header, or the default.
unfoldable pub apply_interval : Option ℤ → Option ℤ → ℤ
apply_interval (some (pos n)) header = pos n
apply_interval mount (some (pos (suc n))) = pos (suc n)
apply_interval mount header = pos icy_metadata_interval
