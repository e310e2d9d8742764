-- ===== src/Backends/Deleted.antt =====
-- What is left of a file when a user is deleted.
use icecast_server.Prelude.{
  subst, append_assoc, str_eq, split_at_byte, contains_byte, All, Bytes, ◌≡◌, refl, sym, ap, ◌∙◌,
  ◌≢◌, ◌⊎◌, inl, inr, Bool, true, false, ◌||◌, Option, none, some, List, [], ◌∷◌, ◌++◌, ◌==◌,
  if◌then◌else◌, Bool-cases, ℕ,
}
use icecast_server.Auth.AuthResult.{user_deleted}
use icecast_server.Backends.Lines.{lines_in, lines_of}
use icecast_server.Backends.Htpasswd.{
  recheck_named, recheck_at, reread, delete_from, replace_file, Outcome, User, Htpasswd, Disk,
  is_skipped, split_last, user_of, read_users, users_of, keep_other, kept_line, kept_lines,
  recheckfile, deleteuser,
}
use icecast_server.Backends.Entries.{ne→eqb, users_of-line}
use icecast_server.Backends.Texts.{eqb→≡, IsPlain, FitsLine, lines_of-FitsLine}

-- A line is split at its last colon, or has none.
abbrev SplitCase : Bytes → Type 0
SplitCase w =
    ((name : Bytes) × (pass : Bytes) × (w ≡ name ++ 58 ∷ pass) × (split_last w ≡ some (name, pass)))
    ⊎ ((split_last w ≡ none) × (split_at_byte 58 w ≡ (w, none)))

split_cases : (w : Bytes) → SplitCase w
unfolding split_last split_at_byte
split_cases [] = inr (refl, refl)
split_cases (c ∷ cs) = elim (split_cases cs) [
  | inl (name, pass, e, s) ↦ inl (c ∷ name, pass, ap (◌∷◌ c) e, rw s refl)
  | inr (s, t) ↦ elim (Bool-cases (c == 58)) [
    | inl e ↦ inl ([], cs, ap (λ (x : ℕ). x ∷ cs) (eqb→≡ c 58 e), simp (s, e) refl)
    | inr e ↦ inr (simp (s, e) refl, simp (t, e) refl)
  ]
]

or-false : (a b : Bool) → (a || b) ≡ false → (a ≡ false) × (b ≡ false)
or-false true b h = absurd (cc h)
or-false false b h = (refl, h)

split_at_byte-joined :
    (name pass : Bytes)
    → contains_byte 58 name ≡ false
    → split_at_byte 58 (name ++ 58 ∷ pass) ≡ (name, some pass)
unfolding split_at_byte contains_byte
split_at_byte-joined [] pass h = refl
split_at_byte-joined (c ∷ name) pass h =
    let (other, rest) = or-false (c == 58) (contains_byte 58 name) h in
    rw (other, split_at_byte-joined name pass rest) refl

-- The users of other names.
abbrev pub others : Bytes → List User → List User
others name [] = []
others name (user ∷ users) =
    if str_eq name user.name then others name users else user ∷ others name users

others-append :
    (name : Bytes) (us vs : List User) → others name (us ++ vs) ≡ others name us ++ others name vs
others-append name [] vs = refl
others-append name (u ∷ us) vs = elim (Bool-cases (str_eq name u.name)) [
  | inl e ↦ rw e (others-append name us vs)
  | inr e ↦ rw e (ap (◌∷◌ u) (others-append name us vs))
]

-- A name that the first colon of a line ends.
abbrev pub HasPlainName : User → Type 0
HasPlainName user = contains_byte 58 user.name ≡ false

user_of-split :
    (w name pass : Bytes)
    → is_skipped w ≡ false
    → split_last w ≡ some (name, pass)
    → user_of w ≡ record { name = name; pass = pass } ∷ []
unfolding user_of
user_of-split w name pass e s = simp (e, s) refl

kept_line-split :
    (username w name pass rest : Bytes)
    → FitsLine w
    → is_skipped w ≡ false
    → split_at_byte 58 w ≡ (name, some pass)
    → user_of w ≡ record { name = name; pass = pass } ∷ []
    → users_of (kept_line username w ++ rest)
      ≡ others username (record { name = name; pass = pass } ∷ []) ++ users_of rest
unfolding kept_line keep_other
kept_line-split username w name pass rest (t, b) e at user =
    elim (Bool-cases (str_eq username name)) [
      | inl same ↦ simp (e, at, same) refl
      | inr other ↦
          simp (e, at, other)
            (ap users_of (append_assoc w (10 ∷ []) rest)
              ∙ users_of-line w rest t b
              ∙ ap (λ (x : List User). x ++ users_of rest) user)
    ]

kept_line-others :
    (username w rest : Bytes)
    → FitsLine w
    → All HasPlainName (user_of w)
    → users_of (kept_line username w ++ rest) ≡ others username (user_of w) ++ users_of rest
kept_line-others username w rest f h = elim (Bool-cases (is_skipped w)) [
  | inl e ↦ unfold kept_line user_of in simp e refl
  | inr e ↦ elim (split_cases w) [
    | inl (name, pass, joined, s) ↦
        let user = user_of-split w name pass e s in
        let plain : All HasPlainName (record { name = name; pass = pass } ∷ []) =
          subst (All HasPlainName) user h in
        let at = ap (split_at_byte 58) joined ∙ split_at_byte-joined name pass plain.0 in
        kept_line-split username w name pass rest f e at user
        ∙ ap (λ (x : List User). others username x ++ users_of rest) (sym user)
    | inr (s, t) ↦ unfold kept_line keep_other user_of in simp (e, s, t) refl
  ]
]

All-split :
    (us vs : List User) → All HasPlainName (us ++ vs) → All HasPlainName us × All HasPlainName vs
All-split [] vs h = (tt, h)
All-split (u ∷ us) vs (p, h) = let (a, b) = All-split us vs h in ((p, a), b)

pub users_of-nil : users_of [] ≡ []
unfolding users_of lines_of lines_in read_users
users_of-nil = refl

kept_lines-others :
    (username : Bytes) (lines : List Bytes)
    → All FitsLine lines
    → All HasPlainName (read_users lines)
    → users_of (kept_lines username lines) ≡ others username (read_users lines)
unfolding kept_lines read_users
kept_lines-others username [] f h = users_of-nil
kept_lines-others username (w ∷ lines) (t, f) h =
    let (here, there) = All-split (user_of w) (read_users lines) h in
    kept_line-others username w (kept_lines username lines) t here
    ∙ ap (λ (x : List User). others username (user_of w) ++ x)
        (kept_lines-others username lines f there)
    ∙ sym (others-append username (user_of w) (read_users lines))

-- The calls that put the new file in the place of the old one succeed.
pub record WillReplace (disk : Disk) : Type 0 where
  pub mtime : ℕ
  pub is_file : disk.mtime ≡ some mtime
  pub opens : disk.opens ≡ true
  pub tmp_exists : disk.tmp_exists ≡ false
  pub tmp_opens : disk.tmp_opens ≡ true
  pub removes : disk.removes ≡ true
  pub renames : disk.renames ≡ true

-- A user was deleted from the file and from the tree.
pub record UserDeleted (username : Bytes) (disk : Disk) (r : Outcome) : Type 0 where
  pub result : r.2 ≡ some user_deleted
  pub file : users_of r.1.bytes ≡ others username (users_of disk.bytes)
  pub tree : r.0.users ≡ some (others username (users_of disk.bytes))

abbrev replaced : Bytes → Disk → Disk
replaced bytes disk = record disk { bytes = bytes; mtime = some disk.clock }

deleteuser-replaces :
    (username filename : Bytes) (s : Htpasswd) (disk : Disk)
    → s.filename ≡ some filename
    → WillReplace disk
    → (let disk' = replaced (kept_lines username (lines_of disk.bytes)) disk in
        deleteuser username s disk ≡ (recheckfile disk' s, disk', some user_deleted))
unfolding deleteuser delete_from replace_file
deleteuser-replaces username filename s disk named w =
    rw (named, w.is_file, w.opens, w.tmp_exists, w.tmp_opens, w.removes, w.renames) refl

-- A file of another time is read again.
pub recheckfile-reads :
    (s : Htpasswd) (disk : Disk) (filename : Bytes) (mtime : ℕ)
    → s.filename ≡ some filename
    → disk.mtime ≡ some mtime
    → disk.opens ≡ true
    → mtime ≢ s.mtime
    → recheckfile disk s ≡ record s { mtime = mtime; users = some (users_of disk.bytes) }
unfolding recheckfile recheck_named recheck_at reread
recheckfile-reads s disk filename mtime named is_file opens later =
    ap (λ (x : Option Bytes). recheck_named x disk s) named
    ∙ ap (λ (x : Option ℕ). recheck_at x disk s) is_file
    ∙ ap
        (λ (b : Bool).
          if b
          then s
          else if disk.opens
          then record s { mtime = mtime; users = some (users_of disk.bytes) }
          else s)
        (ne→eqb mtime s.mtime later)
    ∙ ap
        (λ (b : Bool).
          if b then record s { mtime = mtime; users = some (users_of disk.bytes) } else s)
        opens

-- If all calls succeed and the write leaves another time than the tree was made at, if the file is of
-- plain lines and no name in it has a colon, then htpasswd_deleteuser answers that the user was
-- deleted, and the file and the tree hold the users of the other names, with their hashes and in their
-- order.
pub deleteuser-others :
    (username filename : Bytes) (s : Htpasswd) (disk : Disk)
    → s.filename ≡ some filename
    → WillReplace disk
    → disk.clock ≢ s.mtime
    → All IsPlain disk.bytes
    → All HasPlainName (users_of disk.bytes)
    → UserDeleted username disk (deleteuser username s disk)
deleteuser-others username filename s disk named w later plain names =
    let kept = kept_lines username (lines_of disk.bytes) in
    let disk' = replaced kept disk in
    let left : users_of kept ≡ others username (users_of disk.bytes) =
      unfold users_of in
      kept_lines-others username (lines_of disk.bytes) (lines_of-FitsLine disk.bytes plain)
        (unfold users_of in names) in
    let read = recheckfile-reads s disk' filename disk.clock named refl w.opens later in
    rw (deleteuser-replaces username filename s disk named w, read)
      (record { result = refl; file = left; tree = ap some left })
