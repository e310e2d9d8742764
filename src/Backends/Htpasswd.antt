-- ===== src/Backends/Htpasswd.antt =====
-- src/auth_htpasswd.c: a file of names and hashes.
--
-- A tree of the AVL library is the list of what was inserted, and the search in it, `find`, is a
-- parameter, as is `md5`. `Disk` is the password file as the system calls find it: the bytes, the time
-- of modification if there is a file, which calls succeed, and the time that a write leaves. A call
-- that dereferences a NULL tree or a NULL name of a file has the result `none`. The list of users that
-- the admin interface makes of the tree is left out.
use icecast_server.Prelude.{
  codes, str_eq, split_at_byte, Bytes, Bool, true, false, not, ◌||◌, Option, none, some, List, [],
  ◌∷◌, ◌++◌, ◌==◌, if◌then◌else◌, ℕ,
}
use icecast_server.Auth.{AuthResult}
use icecast_server.Auth.AuthResult.{
  auth_ok, failed, no_match, user_added, user_exists, user_deleted,
}
use icecast_server.Base64.{bin_to_hex}
use icecast_server.Backends.Lines.{lines_of}
use icecast_server.Backends.Password.{Login, ConfigOption}

-- `htpasswd_user`
pub record User : Type 0 where
  pub name : Bytes
  pub pass : Bytes

-- `htpasswd_auth_state`
pub record Htpasswd : Type 0 where
  pub filename : Option Bytes
  pub users : Option (List User)
  pub mtime : ℕ

pub record Disk : Type 0 where
  -- `stat` of the file, 0 or negative
  pub mtime : Option ℕ
  pub bytes : Bytes
  -- may the file be opened for reading, and for appending?
  pub opens : Bool
  pub appends : Bool
  -- `stat` and `fopen` of the temporary file, `remove` and `rename`
  pub tmp_exists : Bool
  pub tmp_opens : Bool
  pub removes : Bool
  pub renames : Bool
  pub clock : ℕ

abbrev pub colon : ℕ
colon = 58

-- `strrchr(line, ':')`: what stands before it and after it.
unfoldable pub split_last : Bytes → Option (Bytes × Bytes)
split_last [] = none
split_last (c ∷ cs) = elim (split_last cs) [
  | some (before, after) ↦ some (c ∷ before, after)
  | none ↦ if c == colon then some ([], cs) else none
]

-- `!line[0] || line[0] == '#'`
unfoldable pub is_skipped : Bytes → Bool
is_skipped [] = true
is_skipped (c ∷ cs) = c == b'#'

-- The entries of one line: none or one.
unfoldable pub user_of : Bytes → List User
unfolding is_skipped split_last
user_of line = if is_skipped line then [] else (elim (split_last line) [
  | none ↦ []
  | some (name, pass) ↦ record { name = name; pass = pass } ∷ []
])

unfoldable pub read_users : List Bytes → List User
unfolding user_of
read_users [] = []
read_users (line ∷ lines) = user_of line ++ read_users lines

-- The tree that is made of a file.
unfoldable pub users_of : Bytes → List User
unfolding lines_of read_users
users_of file = read_users (lines_of file)

-- `fopen(filename, "rb")`
abbrev pub can_open : Disk → Bool
can_open disk = elim disk.mtime [ none ↦ false | some mtime ↦ disk.opens ]

abbrev or_no_users : Option (List User) → Option (List User)
or_no_users none = some []
or_no_users (some users) = some users

unfoldable pub reread : Disk → ℕ → Htpasswd → Htpasswd
unfolding users_of
reread disk mtime s =
    if mtime == s.mtime
    then s
    else if disk.opens
    then record s { mtime = mtime; users = some (users_of disk.bytes) }
    else s

-- After `stat`.
unfoldable pub recheck_at : Option ℕ → Disk → Htpasswd → Htpasswd
unfolding reread
recheck_at none disk s = record s { users = or_no_users s.users }
recheck_at (some mtime) disk s = reread disk mtime s

unfoldable pub recheck_named : Option Bytes → Disk → Htpasswd → Htpasswd
unfolding recheck_at
recheck_named none disk s = s
recheck_named (some filename) disk s = recheck_at disk.mtime disk s

-- `htpasswd_recheckfile`
unfoldable pub recheckfile : Disk → Htpasswd → Htpasswd
unfolding recheck_named
recheckfile disk s = recheck_named s.filename disk s

-- `auth_get_htpasswd_auth`: the file name of the last option for it.
unfoldable pub filename_of : List ConfigOption → Option Bytes → Option Bytes
unfolding str_eq
filename_of [] filename = filename
filename_of (o ∷ options) filename =
    filename_of options (if str_eq o.name (codes "filename") then some o.value else filename)

unfoldable pub get_htpasswd_auth : Disk → List ConfigOption → Htpasswd
unfolding filename_of recheckfile
get_htpasswd_auth disk options =
    recheckfile disk (record { filename = filename_of options none; users = none; mtime = 0 })

-- What `fprintf(passwdfile, "%s:%s\n", username, hashed_password)` prints.
abbrev pub entry_line : Bytes → Bytes → Bytes
entry_line username hash = username ++ colon ∷ hash ++ 10 ∷ []

-- What `htpasswd_deleteuser` prints of a line with these parts at its first colon.
unfoldable pub keep_other : Bytes → Bytes → Bytes × Option Bytes → Bytes
unfolding str_eq
keep_other username line (name, none) = []
keep_other username line (name, some pass) = if str_eq username name then [] else line ++ 10 ∷ []

unfoldable pub kept_line : Bytes → Bytes → Bytes
unfolding is_skipped split_at_byte keep_other
kept_line username line =
    if is_skipped line then [] else keep_other username line (split_at_byte colon line)

-- What it prints of all lines.
unfoldable pub kept_lines : Bytes → List Bytes → Bytes
unfolding kept_line
kept_lines username [] = []
kept_lines username (line ∷ lines) = kept_line username line ++ kept_lines username lines

-- `remove` and `rename`: without the second the temporary file stays.
unfoldable pub replace_file : Bytes → Disk → Disk
replace_file bytes disk =
    if disk.removes
    then (if disk.renames
        then record disk { bytes = bytes; mtime = some disk.clock }
        else record disk { bytes = []; mtime = none; tmp_exists = true })
    else record disk { tmp_exists = true }

abbrev pub Outcome : Type 0
Outcome = Htpasswd × Disk × Option AuthResult

unfoldable pub delete_from : Option Bytes → Bytes → Htpasswd → Disk → Outcome
unfolding kept_lines lines_of replace_file recheckfile
delete_from none username s disk = (s, disk, none)
delete_from (some filename) username s disk =
    let disk' = replace_file (kept_lines username (lines_of disk.bytes)) disk in
    if not (can_open disk) || disk.tmp_exists || not disk.tmp_opens
    then (s, disk, some failed)
    else (recheckfile disk' s, disk', some user_deleted)

-- `htpasswd_deleteuser`
unfoldable pub deleteuser : Bytes → Htpasswd → Disk → Outcome
unfolding delete_from
deleteuser username s disk = delete_from s.filename username s disk

module _ (md5 : Bytes → Bytes) where
  -- `get_hash`
  unfoldable pub get_hash : Bytes → Bytes
  unfolding bin_to_hex
  get_hash text = bin_to_hex (md5 text)

  unfoldable pub check_found : Option User → Bytes → AuthResult
  unfolding str_eq get_hash
  check_found none password = no_match
  check_found (some user) password =
      if str_eq user.pass (get_hash password) then auth_ok else failed

module _ (md5 : Bytes → Bytes) (find : List User → Bytes → Option User) where
  unfoldable pub search : Option (List User) → Bytes → Bytes → Option AuthResult
  unfolding check_found
  search none name password = none
  search (some users) name password = some (check_found md5 (find users name) password)

  unfoldable pub auth_named :
      Option Bytes → Bytes → Bytes → Htpasswd → Disk → Htpasswd × Option AuthResult
  unfolding recheckfile search
  auth_named none name password s disk = (s, some no_match)
  auth_named (some filename) name password s disk =
      let s' = recheckfile disk s in (s', search s'.users name password)

  -- `htpasswd_auth`
  unfoldable pub htpasswd_auth : Login → Htpasswd → Disk → Htpasswd × Option AuthResult
  unfolding auth_named
  htpasswd_auth login s disk = elim login.username [
    | none ↦ (s, some no_match)
    | some name ↦ elim login.password [
      | none ↦ (s, some no_match)
      | some password ↦ auth_named s.filename name password s disk
    ]
  ]

  -- What `fopen(filename, "ab")` and the `fprintf` leave.
  unfoldable pub append_user : Bytes → Bytes → Htpasswd → Disk → Outcome
  unfolding get_hash
  append_user username password s disk =
      if disk.appends
      then (
        s,
        record disk {
          bytes = disk.bytes ++ entry_line username (get_hash md5 password);
          mtime = some disk.clock;
        },
        some user_added,
      )
      else (s, disk, some failed)

  -- After the search for the name.
  unfoldable pub add_found : Option User → Bytes → Bytes → Htpasswd → Disk → Outcome
  unfolding append_user
  add_found (some found) username password s disk = (s, disk, some user_exists)
  add_found none username password s disk = append_user username password s disk

  unfoldable pub add_to : Option (List User) → Bytes → Bytes → Htpasswd → Disk → Outcome
  unfolding add_found
  add_to none username password s disk = (s, disk, none)
  add_to (some users) username password s disk =
      add_found (find users username) username password s disk

  -- `htpasswd_adduser`
  unfoldable pub adduser : Bytes → Bytes → Htpasswd → Disk → Outcome
  unfolding recheckfile add_to
  adduser username password s disk =
      let s' = recheckfile disk s in add_to s'.users username password s' disk
