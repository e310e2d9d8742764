-- ===== src/Tests/Backends.antt =====
-- Tests of `Backends`.
use icecast_server.Prelude.{
  starts_with, contains_byte, codes, length, str_eq_iff, replicate, str_eq, Bytes, ◌%◌, ◌≡◌, refl,
  sym, ap, ◌∙◌, ◌≢◌, ◌↔◌, inl, inr, Bool, true, false, Option, none, some, List, [], ◌∷◌, ◌++◌,
  arith, if◌then◌else◌, Bool-cases,
}
use icecast_server.Auth.AuthResult.{auth_ok}
use icecast_server.Backends.Password.{AuthStatic, static_auth, get_static_auth}
use icecast_server.Backends.Htpasswd.{
  User, Htpasswd, Disk, users_of, recheckfile, get_hash, htpasswd_auth, adduser, deleteuser,
}
use icecast_server.Backends.Passed.{NameFits, static_auth_iff}
use icecast_server.Backends.Decided.{Has, Finds, Verdict, htpasswd_auth-Verdict}
use icecast_server.Backends.Deleted.{UserDeleted, WillReplace, deleteuser-others}
use icecast_server.Backends.Added.{IsUserName}
use icecast_server.Backends.Accounts.{Synced, LogsIn, adduser-LogsIn}

-- A digest of 16 bytes.
abbrev digest : Bytes → Bytes
digest text = replicate 16 (length text % 256)

unfoldable first : List User → Bytes → Option User
unfolding str_eq
first [] name = none
first (u ∷ us) name = let rest = first us name in if str_eq u.name name then some u else rest

abbrev choose : User → List User → Bytes → Bool → Option User
choose v us name b = if b then some v else first us name

some_inj : (u v : User) → some u ≡ some v → u ≡ v
some_inj u v e = ap (λ (o : Option User). elim o [ none ↦ u | some x ↦ x ]) e

first-holds :
    (us : List User) (name : Bytes) (u : User) → first us name ≡ some u → Has u us × (u.name ≡ name)
unfolding first
first-holds [] name u h = absurd (cc h)
first-holds (v ∷ us) name u h = elim (Bool-cases (str_eq v.name name)) [
  | inl e ↦
      let same : v ≡ u = some_inj v u (ap (choose v us name) (sym e) ∙ h) in
      (inl (sym same), ap (λ (x : User). x.name) (sym same) ∙ ((str_eq_iff v.name name).0) e)
  | inr e ↦
      let (has, named) = first-holds us name u (ap (choose v us name) (sym e) ∙ h) in
      (inr has, named)
]

first-misses :
    (us : List User) (name : Bytes) → first us name ≡ none → (u : User) → Has u us → u.name ≢ name
unfolding first
first-misses [] name h u has named = absurd has
first-misses (v ∷ us) name h u has named = elim (Bool-cases (str_eq v.name name)) [
  | inl e ↦ absurd (cc (ap (choose v us name) (sym e) ∙ h))
  | inr e ↦ elim has [
    | inl same ↦
        absurd (cc (e, ((str_eq_iff v.name name).1) (ap (λ (x : User). x.name) (sym same) ∙ named)))
    | inr later ↦ first-misses us name (ap (choose v us name) (sym e) ∙ h) u later named
  ]
]

first-Finds : Finds first
first-Finds = record { holds = first-holds; misses = first-misses }

-- One user, `a:h`.
abbrev file : Bytes
file = codes "a:h" ++ 10 ∷ []

abbrev disk : Disk
disk = record {
  mtime = some 5;
  bytes = file;
  opens = true;
  appends = true;
  tmp_exists = false;
  tmp_opens = true;
  removes = true;
  renames = true;
  clock = 9;
}

abbrev state : Htpasswd
state = record { filename = some (codes "users"); users = none; mtime = 0 }

abbrev a_user : User
a_user = record { name = codes "a"; pass = codes "h" }

reads : users_of file ≡ a_user ∷ []
unfolding users_of
reads = refl

-- The name in the entry `a:b:h` is `a:b`, and the deletion of `a` takes it out.
takes_more :
    users_of
      (deleteuser (codes "a") state (record disk { bytes = codes "a:b:h" ++ 10 ∷ [] })).1.bytes
    ≡ []
unfolding users_of deleteuser
takes_more = refl

absent : first (users_of file) (codes "b") ≡ none
unfolding first users_of
absent = refl

state-Synced : Synced state disk
state-Synced = record {
  filename = codes "users";
  mtime = 5;
  named = refl;
  is_file = refl;
  opens = refl;
  in_sync = inl (omega arith);
}

b-IsUserName : IsUserName (codes "b")
unfolding starts_with
b-IsUserName = record {
  text = ((omega arith, omega arith, omega arith), tt);
  fits = omega arith;
  listed = refl;
}

adduser-LogsIn_example :
    LogsIn digest first first-Finds
      (codes "b")
      (codes "pw")
      disk
      (adduser digest first (codes "b") (codes "pw") state disk)
unfolding state-Synced
adduser-LogsIn_example =
    adduser-LogsIn digest first first-Finds (codes "b") (codes "pw") state disk state-Synced
      b-IsUserName refl refl absent refl (omega arith)

disk-WillReplace : WillReplace disk
disk-WillReplace = record {
  mtime = 5;
  is_file = refl;
  opens = refl;
  tmp_exists = refl;
  tmp_opens = refl;
  removes = refl;
  renames = refl;
}

no_colon : contains_byte 58 (codes "a") ≡ false
unfolding contains_byte
no_colon = refl

deleteuser-others_example : UserDeleted (codes "a") disk (deleteuser (codes "a") state disk)
deleteuser-others_example =
    deleteuser-others (codes "a") (codes "users") state disk refl disk-WillReplace (omega arith)
      (
        (omega arith, omega arith),
        (
          (omega arith, omega arith),
          ((omega arith, omega arith), ((omega arith, omega arith), tt)),
        ),
      )
      (rw reads (no_colon, tt))

tree : (recheckfile disk state).users ≡ some (a_user ∷ [])
unfolding recheckfile users_of
tree = refl

htpasswd_auth-Verdict_example :
    Verdict
      (a_user ∷ [])
      (codes "a")
      (get_hash digest (codes "pw"))
      (htpasswd_auth digest first
        (record { username = some (codes "a"); password = some (codes "pw") })
        state
        disk).1
htpasswd_auth-Verdict_example =
    htpasswd_auth-Verdict digest first first-Finds (codes "a") (codes "pw") (codes "users")
      (a_user ∷ []) state disk refl tree

abbrev relay : AuthStatic
relay = record { username = some (codes "relay"); password = codes "pw" }

last_wins :
    get_static_auth (codes "static") (
      record { name = codes "username"; value = codes "source" }
      ∷ record { name = codes "password"; value = codes "pw" }
      ∷ record { name = codes "username"; value = codes "relay" }
      ∷ [])
    ≡ some relay
unfolding get_static_auth
last_wins = refl

static_auth_iff_example :
    (static_auth relay (record { username = some (codes "relay"); password = some (codes "pw") })
      ≡ auth_ok)
    ↔ (NameFits (some (codes "relay")) (some (codes "relay"))
        × (some (codes "pw") ≡ some (codes "pw")))
static_auth_iff_example =
    static_auth_iff relay (record { username = some (codes "relay"); password = some (codes "pw") })
