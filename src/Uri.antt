-- ===== src/Uri.antt =====
-- The URI functions of src/util.c: `hex`, `verify_path`, `util_url_escape`, `util_url_unescape`,
-- `util_normalise_uri`, `util_get_path_from_uri`, `util_get_path_from_normalised_uri`,
-- `util_get_extension` and `util_check_valid_extension`.
--
-- A C string is the list of its bytes. A buffer that the code fills may hold a NUL (from `%00`): it is
-- kept whole, and a reader of it as a C string stops there (`c_string`). NULL is `none`. The build is
-- not `_WIN32`, and an allocation does not fail.
mod Coding
pub mod Segments
pub mod RoundTrip
pub mod Confined
unfoldable pub use Coding.{
  hexchars, safechars, hex, escape_byte, escape_bytes, url_escape, url_unescape,
}
use icecast_server.Prelude.{
  ℕ, Bool, true, false, not, ◌&&◌, ◌||◌, List, [], ◌∷◌, ◌++◌, Option, none, some, Bytes, codes,
  str_eq, c_string, ◌==◌, if◌then◌else◌,
}

-- `*path == '/' || *path == '\\'`
abbrev pub is_slash : ℕ → Bool
is_slash c = c == b'/' || c == b'\\'

-- The loop of `verify_path` with its two flags, `dir` and `indotseq`.
unfoldable pub verify_from : Bool → Bool → Bytes → Bool
verify_from dir indotseq [] = true
verify_from dir indotseq (c ∷ cs) =
    let after_slash = verify_from true indotseq cs in
    let after_other = verify_from false (if dir || indotseq then c == b'.' else indotseq) cs in
    if c == 0
    then true
    else if is_slash c
    then (if indotseq then false else if dir then false else after_slash)
    else after_other

unfoldable pub verify_path : Bytes → Bool
unfolding verify_from
verify_path = verify_from false false

starts_with_slash : Bytes → Bool
starts_with_slash [] = false
starts_with_slash (c ∷ cs) = c == b'/'

unfoldable pub normalise_uri : Bytes → Option Bytes
unfolding url_unescape verify_path starts_with_slash
normalise_uri uri = if not (starts_with_slash uri) then none else (elim (url_unescape uri) [
  | none ↦ none
  | some path ↦ if verify_path path then some path else none
])

-- `sprintf(fullpath, "%s%s", webroot, uri)`
unfoldable pub get_path_from_normalised_uri : Bytes → Bytes → Bytes
get_path_from_normalised_uri webroot uri = c_string webroot ++ c_string uri

unfoldable pub get_path_from_uri : Bytes → Bytes → Option Bytes
unfolding normalise_uri get_path_from_normalised_uri
get_path_from_uri webroot uri = elim (normalise_uri uri) [
  | none ↦ none
  | some path ↦ some (get_path_from_normalised_uri webroot path)
]

-- What follows the last `b` (`strrchr(s, b) + 1`), if there is one.
after_last : ℕ → Bytes → Option Bytes
after_last b [] = none
after_last b (c ∷ cs) = elim (after_last b cs) [
  | some rest ↦ some rest
  | none ↦ if c == b then some cs else none
]

unfoldable pub get_extension : Bytes → Bytes
unfolding after_last
get_extension path = elim (after_last b'.' path) [ none ↦ [] | some rest ↦ rest ]

pub data ContentKind : Type 0 where
  xslt_content html_content unknown_content : ContentKind

unfoldable pub check_valid_extension : Option Bytes → ContentKind
unfolding after_last str_eq
check_valid_extension none = unknown_content
check_valid_extension (some uri) = elim (after_last b'.' uri) [
  | none ↦ unknown_content
  | some p2 ↦
      if str_eq p2 (codes "xsl") || str_eq p2 (codes "xslt")
      then xslt_content
      else if str_eq p2 (codes "htm") || str_eq p2 (codes "html")
      then html_content
      else unknown_content
]
