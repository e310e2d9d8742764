-- ===== src/Backends/Decided.antt =====
-- What the htpasswd backend answers.
use icecast_server.Prelude.{
  subst, str_eq_iff, str_eq, Bytes, ◌≡◌, refl, sym, ap, ◌∙◌, ◌≢◌, ◌⊎◌, inl, inr, Option, none, some,
  List, [], ◌∷◌, Bool-cases,
}
use icecast_server.Auth.{AuthResult}
use icecast_server.Auth.AuthResult.{auth_ok, failed, no_match}
use icecast_server.Backends.Password.{Login}
use icecast_server.Backends.Htpasswd.{
  User, Htpasswd, Disk, recheckfile, get_hash, check_found, search, auth_named, htpasswd_auth,
}

abbrev pub Has : User → List User → Type 0
Has v [] = ⊥
Has v (u ∷ us) = (v ≡ u) ⊎ Has v us

-- `avl_get_by_key` finds an entry of the name, if the tree has one.
pub record Finds (find : List User → Bytes → Option User) : Type 0 where
  pub holds :
      (us : List User) (name : Bytes) (u : User)
      → find us name ≡ some u
      → Has u us × (u.name ≡ name)
  pub misses :
      (us : List User) (name : Bytes) → find us name ≡ none → (u : User) → Has u us → u.name ≢ name

-- The answer on a name and a hash from the entries of a file.
abbrev pub Verdict : List User → Bytes → Bytes → Option AuthResult → Type 0
Verdict us name hash answer =
    ((answer ≡ some auth_ok) × (u : User) × Has u us × (u.name ≡ name) × (u.pass ≡ hash))
    ⊎ ((answer ≡ some failed) × (u : User) × Has u us × (u.name ≡ name) × (u.pass ≢ hash))
    ⊎ ((answer ≡ some no_match) × ((u : User) → Has u us → u.name ≢ name))

none_or_some {ℓ} : {A : Type ℓ} → (o : Option A) → (o ≡ none) ⊎ ((a : A) × (o ≡ some a))
none_or_some none = inl refl
none_or_some (some a) = inr (a, refl)

module _ (md5 : Bytes → Bytes) (find : List User → Bytes → Option User) (finds : Finds find) where
  search-Verdict :
      (us : List User) (name password : Bytes)
      → Verdict us name (get_hash md5 password) (search md5 find (some us) name password)
  unfolding search check_found
  search-Verdict us name password = elim (none_or_some (find us name)) [
    | inl e ↦ inr (inr (rw e refl, finds.misses us name e))
    | inr (u, e) ↦
        let (has, named) = finds.holds us name u e in
        let hash = get_hash md5 password in
        elim (Bool-cases (str_eq u.pass hash)) [
          | inl same ↦ inl (rw (e, same) refl, u, has, named, ((str_eq_iff u.pass hash).0) same)
          | inr other ↦ inr (
              inl (
                rw (e, other) refl,
                u,
                has,
                named,
                λ p. cc (other, ((str_eq_iff u.pass hash).1) p),
              ))
        ]
  ]

  -- With a file name and a tree, htpasswd_auth of a name and a password answers, and the answer is
  -- AUTH_OK only if an entry of the tree has the name and the password's hash, AUTH_FAILED only if one
  -- has the name and another hash, and AUTH_NOMATCH only if none has the name; there is no other
  -- answer.
  pub htpasswd_auth-Verdict :
      (name password filename : Bytes) (us : List User) (s : Htpasswd) (disk : Disk)
      → s.filename ≡ some filename
      → (recheckfile disk s).users ≡ some us
      → (let login : Login = record { username = some name; password = some password } in
          Verdict us name (get_hash md5 password) (htpasswd_auth md5 find login s disk).1)
  unfolding htpasswd_auth auth_named
  htpasswd_auth-Verdict name password filename us s disk named tree =
      let same : auth_named md5 find s.filename name password s disk
          ≡ (recheckfile disk s, search md5 find (some us) name password) =
        ap (λ (x : Option Bytes). auth_named md5 find x name password s disk) named
        ∙ ap (λ (x : Option (List User)). (recheckfile disk s, search md5 find x name password))
            tree in
      subst (λ (r : Htpasswd × Option AuthResult). Verdict us name (get_hash md5 password) r.1)
        (sym same) (search-Verdict us name password)
