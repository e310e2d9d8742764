-- ===== src/Backends/Accounts.antt =====
-- A user is added, and then logs in.
use icecast_server.Prelude.{
  str_eq_iff, str_eq, length, Bytes, ◌*◌, ◌≡◌, refl, sym, ap, ◌∙◌, ◌≢◌, ◌⊎◌, inl, inr, Bool, true,
  Option, none, some, List, [], ◌∷◌, ◌++◌, ◌==◌, if◌then◌else◌, Bool-cases, ℕ,
}
use icecast_server.Auth.{AuthResult}
use icecast_server.Auth.AuthResult.{auth_ok, failed, user_added}
use icecast_server.Backends.Htpasswd.{
  User, Htpasswd, Disk, Outcome, entry_line, users_of, recheckfile, recheck_named, recheck_at,
  reread, get_hash, append_user, add_found, add_to, adduser, htpasswd_auth,
}
use icecast_server.Backends.Read.{EndsLine}
use icecast_server.Backends.Texts.{eqb→≡, eqb→ne}
use icecast_server.Backends.Deleted.{recheckfile-reads}
use icecast_server.Backends.Decided.{Has, Finds, Verdict, htpasswd_auth-Verdict}
use icecast_server.Backends.Added.{IsUserName, users_of-entry, hash-IsHash, length-hash}

-- There is a file that can be read, and unless its time differs the tree was made of it.
pub record Synced (s : Htpasswd) (disk : Disk) : Type 0 where
  pub filename : Bytes
  pub mtime : ℕ
  pub named : s.filename ≡ some filename
  pub is_file : disk.mtime ≡ some mtime
  pub opens : disk.opens ≡ true
  pub in_sync : (mtime ≢ s.mtime) ⊎ (s.users ≡ some (users_of disk.bytes))

-- What `htpasswd_recheckfile` makes of such a state.
record Rechecked (disk : Disk) (filename : Bytes) (mtime : ℕ) (s' : Htpasswd) : Type 0 where
  named : s'.filename ≡ some filename
  read_at : s'.mtime ≡ mtime
  tree : s'.users ≡ some (users_of disk.bytes)

recheckfile-keeps :
    (s : Htpasswd) (disk : Disk) (filename : Bytes) (mtime : ℕ)
    → s.filename ≡ some filename
    → disk.mtime ≡ some mtime
    → (mtime == s.mtime) ≡ true
    → recheckfile disk s ≡ s
unfolding recheckfile recheck_named recheck_at reread
recheckfile-keeps s disk filename mtime named is_file same =
    ap (λ (x : Option Bytes). recheck_named x disk s) named
    ∙ ap (λ (x : Option ℕ). recheck_at x disk s) is_file
    ∙ ap
        (λ (b : Bool).
          if b
          then s
          else if disk.opens
          then record s { mtime = mtime; users = some (users_of disk.bytes) }
          else s)
        same

recheckfile-Rechecked :
    (s : Htpasswd) (disk : Disk) (k : Synced s disk)
    → Rechecked disk k.filename k.mtime (recheckfile disk s)
recheckfile-Rechecked s disk k = elim (Bool-cases (k.mtime == s.mtime)) [
  | inr other ↦
      rw
        (recheckfile-reads s disk k.filename k.mtime k.named k.is_file k.opens
          (eqb→ne k.mtime s.mtime other))
        (record { named = k.named; read_at = refl; tree = refl })
  | inl same ↦ rw (recheckfile-keeps s disk k.filename k.mtime k.named k.is_file same) (record {
    named = k.named;
    read_at = sym (eqb→≡ k.mtime s.mtime same);
    tree = elim k.in_sync [
      | inl differs ↦ absurd (differs (eqb→≡ k.mtime s.mtime same))
      | inr tree ↦ tree
    ];
  })
]

Has-last : (v u : User) (us : List User) → Has v (us ++ u ∷ []) → Has v us ⊎ (v ≡ u)
Has-last v u [] (inl e) = inr e
Has-last v u [] (inr h) = absurd h
Has-last v u (x ∷ us) (inl e) = inl (inl e)
Has-last v u (x ∷ us) (inr h) = elim (Has-last v u us h) [ inl i ↦ inl (inr i) | inr e ↦ inr e ]

Has-added : (u : User) (us : List User) → Has u (us ++ u ∷ [])
Has-added u [] = inl refl
Has-added u (x ∷ us) = inr (Has-added u us)

-- The only user of a name decides.
Verdict-only :
    (us : List User) (u : User) (hash : Bytes) (answer : Option AuthResult)
    → ((v : User) → Has v us → v.name ≢ u.name)
    → Verdict (us ++ u ∷ []) u.name hash answer
    → answer ≡ some (if str_eq u.pass hash then auth_ok else failed)
Verdict-only us u hash answer alone (inl (e, v, has, named, p)) = elim (Has-last v u us has) [
  | inl earlier ↦ absurd (alone v earlier named)
  | inr same ↦
      e
      ∙ ap (λ (b : Bool). some (if b then auth_ok else failed))
          (sym (((str_eq_iff u.pass hash).1) (ap (λ (x : User). x.pass) (sym same) ∙ p)))
]
Verdict-only us u hash answer alone (inr (inl (e, v, has, named, p))) = elim (Has-last v u us has) [
  | inl earlier ↦ absurd (alone v earlier named)
  | inr same ↦ elim (Bool-cases (str_eq u.pass hash)) [
    | inl equal ↦ absurd (p (ap (λ (x : User). x.pass) same ∙ ((str_eq_iff u.pass hash).0) equal))
    | inr other ↦ e ∙ ap (λ (b : Bool). some (if b then auth_ok else failed)) (sym other)
  ]
]
Verdict-only us u hash answer alone (inr (inr (e, none_has))) =
    absurd (none_has u (Has-added u us) refl)

module _ (md5 : Bytes → Bytes) (find : List User → Bytes → Option User) (finds : Finds find) where
  -- A user was added, who logs in with a password exactly if it has the same hash.
  pub record LogsIn (username password : Bytes) (disk : Disk) (r : Outcome) : Type 0 where
    pub result : r.2 ≡ some user_added
    pub file :
        users_of r.1.bytes
        ≡ users_of disk.bytes ++ record { name = username; pass = get_hash md5 password } ∷ []
    pub login :
        (given : Bytes)
        → (htpasswd_auth md5 find
            (record { username = some username; password = some given })
            r.0
            r.1).1
          ≡ some (if str_eq (get_hash md5 password) (get_hash md5 given) then auth_ok else failed)

  adduser-appends :
      (username password : Bytes) (s : Htpasswd) (disk : Disk) (us : List User)
      → (recheckfile disk s).users ≡ some us
      → find us username ≡ none
      → disk.appends ≡ true
      → adduser md5 find username password s disk ≡ (
        recheckfile disk s,
        record disk {
          bytes = disk.bytes ++ entry_line username (get_hash md5 password);
          mtime = some disk.clock;
        },
        some user_added,
      )
  unfolding adduser add_to add_found append_user
  adduser-appends username password s disk us tree absent appends =
      let s' = recheckfile disk s in
      ap (λ (x : Option (List User)). add_to md5 find x username password s' disk) tree
      ∙ ap (λ (x : Option User). add_found md5 find x username password s' disk) absent
      ∙ rw appends refl

  -- For a file that can be read, that the tree is in step with, that is empty or ends with a line feed
  -- and has no entry of the name, a name that can stand in it, a digest of 16 bytes, and an append
  -- that succeeds and leaves another time of modification: htpasswd_adduser answers that the user was
  -- added, the file then has one more entry, of the name and the password's hash, after those it had;
  -- and the next htpasswd_auth of that name answers AUTH_OK for a password of the same hash and
  -- AUTH_FAILED for any other.
  pub adduser-LogsIn :
      (username password : Bytes) (s : Htpasswd) (disk : Disk) (k : Synced s disk)
      → IsUserName username
      → length (md5 password) ≡ 16
      → EndsLine disk.bytes
      → find (users_of disk.bytes) username ≡ none
      → disk.appends ≡ true
      → disk.clock ≢ k.mtime
      → LogsIn username password disk (adduser md5 find username password s disk)
  adduser-LogsIn username password s disk k name size ends absent appends later =
      let us = users_of disk.bytes in
      let hash = get_hash md5 password in
      let u : User = record { name = username; pass = hash } in
      let r = recheckfile-Rechecked s disk k in
      let s' = recheckfile disk s in
      let disk' : Disk = record disk {
        bytes = disk.bytes ++ entry_line username hash;
        mtime = some disk.clock;
      } in
      let file : users_of disk'.bytes ≡ us ++ u ∷ [] =
        users_of-entry disk.bytes username hash ends name
          (unfold get_hash in hash-IsHash (md5 password))
          (unfold get_hash in (length-hash (md5 password) ∙ ap (λ (n : ℕ). 2 * n) size)) in
      let differs : disk.clock ≢ s'.mtime = λ e. later (e ∙ r.read_at) in
      let again = recheckfile-reads s' disk' k.filename disk.clock r.named refl k.opens differs in
      let tree : (recheckfile disk' s').users ≡ some (us ++ u ∷ []) =
        ap (λ (x : Htpasswd). x.users) again ∙ ap some file in
      rw (adduser-appends username password s disk us r.tree absent appends) (record {
        result = refl;
        file = file;
        login = λ given.
            Verdict-only us u (get_hash md5 given) _ (finds.misses us username absent) (
              htpasswd_auth-Verdict md5 find finds username given k.filename (us ++ u ∷ []) s' disk'
                r.named tree);
      })
