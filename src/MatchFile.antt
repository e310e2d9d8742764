-- ===== src/MatchFile.antt =====
-- The files of allowed and denied keys: src/matchfile.c.
--
-- The AVL tree of a file is the list of what was inserted, where a search finds what is equal. `Disk`
-- is what the system calls return: the clock, the modification time of the file, and the lines that
-- `get_line` yields, if it can be opened. A NULL file or key is `none`. The reference counter is left
-- out.
pub mod Rule
use icecast_server.Prelude.{
  ℕ, ◌+◌, Bool, true, false, not, ◌&&◌, ◌||◌, List, [], ◌∷◌, ◌++◌, Option, none, some, Bytes,
  str_eq, ltb, ◌==◌, if◌then◌else◌,
}

pub record MatchFile : Type 0 where
  pub filename : Bytes
  pub file_recheck : ℕ
  pub file_mtime : ℕ
  pub contents : Option (List Bytes)

pub record Disk : Type 0 where
  pub now : ℕ
  pub mtime : Option ℕ
  pub lines : Option (List Bytes)

-- `!line[0] || line[0] == '#'`
unfoldable pub is_skipped : Bytes → Bool
is_skipped [] = true
is_skipped (c ∷ cs) = c == b'#'

unfoldable pub read_lines : List Bytes → List Bytes
unfolding is_skipped
read_lines [] = []
read_lines (line ∷ lines) =
    let rest = read_lines lines in if is_skipped line then rest else line ∷ rest

-- After the file could be opened, or not.
unfoldable pub reload : Option (List Bytes) → MatchFile → MatchFile
unfolding read_lines
reload none file = file
reload (some lines) file = record file { contents = some (read_lines lines) }

unfoldable pub recheck_mtime : Option ℕ → Option (List Bytes) → MatchFile → MatchFile
unfolding reload
recheck_mtime none lines file = file
recheck_mtime (some mtime) lines file =
    if mtime == file.file_mtime then file else reload lines (record file { file_mtime = mtime })

-- `__func_recheck`
unfoldable pub recheck : Disk → MatchFile → MatchFile
unfolding recheck_mtime
recheck disk file =
    if ltb disk.now file.file_recheck
    then file
    else recheck_mtime disk.mtime disk.lines (record file { file_recheck = disk.now + 10 })

unfoldable pub matchfile_new : Disk → Option Bytes → Option MatchFile
unfolding recheck
matchfile_new disk none = none
matchfile_new disk (some filename) = some (
    recheck disk
      (record { filename = filename; file_recheck = 0; file_mtime = 0; contents = none }))

-- `avl_get_by_key(file->contents, key, &result) == 0`
unfoldable pub holds_key : List Bytes → Bytes → Bool
unfolding str_eq
holds_key [] key = false
holds_key (line ∷ lines) key = str_eq key line || holds_key lines key

contents_match : Option (List Bytes) → Bytes → Bool
unfolding holds_key
contents_match none key = false
contents_match (some lines) key = holds_key lines key

-- The file afterwards, and the result; `none` is -1.
unfoldable pub matchfile_match : Disk → Option MatchFile → Bytes → Option MatchFile × Option Bool
unfolding recheck contents_match
matchfile_match disk none key = (none, none)
matchfile_match disk (some file) key =
    let file' = recheck disk file in (some file', some (contents_match file'.contents key))

-- `matchfile_match(...) > 0`
unfoldable pub is_match : Option Bool → Bool
is_match none = false
is_match (some b) = b

pub record Matched : Type 0 where
  pub allow : Option MatchFile
  pub deny : Option MatchFile
  pub allowed : Bool

abbrev pub is_null : Option MatchFile → Bool
is_null none = true
is_null (some f) = false

match_key : Disk → Disk → Option MatchFile → Option MatchFile → Bytes → Matched
unfolding matchfile_match is_match
match_key deny_disk allow_disk allow deny key =
    let (deny', banned) = matchfile_match deny_disk deny key in
    let (allow', listed) = matchfile_match allow_disk allow key in
    if is_match banned
    then record { allow = allow; deny = deny'; allowed = false }
    else if is_match listed
    then record { allow = allow'; deny = deny'; allowed = true }
    else record { allow = allow'; deny = deny'; allowed = is_null allow }

-- What each of the two files finds on the disk is given.
unfoldable pub match_allow_deny :
    Disk → Disk → Option MatchFile → Option MatchFile → Option Bytes → Matched
unfolding match_key
match_allow_deny deny_disk allow_disk allow deny none = record {
  allow = allow;
  deny = deny;
  allowed = is_null allow && is_null deny;
}
match_allow_deny deny_disk allow_disk allow deny (some key) =
    let by_key = match_key deny_disk allow_disk allow deny key in
    if is_null allow && is_null deny
    then record { allow = allow; deny = deny; allowed = true }
    else by_key
