-- ===== src/Backends/Passed.antt =====
-- Whom the static backend lets pass.
use icecast_server.Prelude.{
  str_eq_iff, str_eq, Bytes, ◌≡◌, refl, sym, ap, ◌≢◌, ◌↔◌, inl, inr, Bool, true, false, Option,
  none, some, Bool-cases,
}
use icecast_server.Auth.{AuthResult}
use icecast_server.Auth.AuthResult.{auth_ok, failed, no_match}
use icecast_server.Backends.Password.{
  Login, AuthStatic, check_password, static_auth, static_named, static_named_as,
}

-- No name is wanted, or this one is given.
abbrev pub NameFits : Option Bytes → Option Bytes → Type 0
NameFits none given = Unit
NameFits (some name) given = given ≡ some name

abbrev pub is_ok : AuthResult → Bool
is_ok auth_ok = true
is_ok _ = false

failed≢ok : failed ≢ auth_ok
failed≢ok e = cc e

no_match≢ok : no_match ≢ auth_ok
no_match≢ok e = cc e

some-injective : (a b : Bytes) → some a ≡ some b → a ≡ b
some-injective a b e = ap (λ (o : Option Bytes). elim o [ none ↦ a | some x ↦ x ]) e

check_password_iff :
    (wanted : Bytes) (given : Option Bytes)
    → (check_password wanted given ≡ auth_ok) ↔ (given ≡ some wanted)
unfolding check_password
check_password_iff wanted none = (λ h. absurd (no_match≢ok h), λ h. absurd (cc h))
check_password_iff wanted (some given) = elim (Bool-cases (str_eq wanted given)) [
  | inl e ↦ rw e (λ h. ap some (sym (((str_eq_iff wanted given).0) e)), λ h. refl)
  | inr e ↦ rw e (
    λ h. absurd (failed≢ok h),
    λ h. absurd (cc (e, ((str_eq_iff wanted given).1) (sym (some-injective given wanted h)))),
  )
]

named_iff :
    (username given : Option Bytes) (wanted : Bytes) (password : Option Bytes)
    → (static_named username given wanted password ≡ auth_ok)
      ↔ (NameFits username given × (password ≡ some wanted))
unfolding static_named static_named_as
named_iff none given wanted password =
    let (to, from) = check_password_iff wanted password in (λ h. (tt, to h), λ h. from h.1)
named_iff (some name) none wanted password = (λ h. absurd (no_match≢ok h), λ h. absurd (cc h.0))
named_iff (some name) (some given) wanted password = elim (Bool-cases (str_eq name given)) [
  | inl e ↦ rw e (
      let (to, from) = check_password_iff wanted password in
      (λ h. (ap some (sym (((str_eq_iff name given).0) e)), to h), λ h. from h.1))
  | inr e ↦ rw e (
    λ h. absurd (no_match≢ok h),
    λ h. absurd (cc (e, ((str_eq_iff name given).1) (sym (some-injective given name h.0)))),
  )
]

-- static_auth answers AUTH_OK exactly if the client gives the password and, where the authenticator
-- has a name, that name.
pub static_auth_iff :
    (info : AuthStatic) (login : Login)
    → (static_auth info login ≡ auth_ok)
      ↔ (NameFits info.username login.username × (login.password ≡ some info.password))
unfolding static_auth
static_auth_iff info login = named_iff info.username login.username info.password login.password
