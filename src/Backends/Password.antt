-- ===== src/Backends/Password.antt =====
-- `static_auth` and `auth_get_static_auth` of src/auth_static.c.
use icecast_server.Prelude.{
  codes, str_eq, Bytes, Bool, true, false, Option, none, some, List, [], ◌∷◌, if◌then◌else◌,
}
use icecast_server.Auth.{AuthResult}
use icecast_server.Auth.AuthResult.{auth_ok, failed, no_match}

-- What a backend reads of a client.
pub record Login : Type 0 where
  pub username : Option Bytes
  pub password : Option Bytes

pub record AuthStatic : Type 0 where
  pub username : Option Bytes
  pub password : Bytes

-- The password of a client whose name is not refused.
unfoldable pub check_password : Bytes → Option Bytes → AuthResult
unfolding str_eq
check_password wanted none = no_match
check_password wanted (some given) = if str_eq wanted given then auth_ok else failed

-- With the name that the authenticator wants.
unfoldable pub static_named_as : Bytes → Option Bytes → Bytes → Option Bytes → AuthResult
unfolding check_password str_eq
static_named_as name none wanted password = no_match
static_named_as name (some given) wanted password =
    if str_eq name given then check_password wanted password else no_match

unfoldable pub static_named : Option Bytes → Option Bytes → Bytes → Option Bytes → AuthResult
unfolding static_named_as
static_named none given wanted password = check_password wanted password
static_named (some name) given wanted password = static_named_as name given wanted password

-- `static_auth`
unfoldable pub static_auth : AuthStatic → Login → AuthResult
unfolding static_named
static_auth info login = static_named info.username login.username info.password login.password

-- `config_options_t`, a chain of which is a list.
pub record ConfigOption : Type 0 where
  pub name : Bytes
  pub value : Bytes

set_option : ConfigOption → Option Bytes × Option Bytes → Option Bytes × Option Bytes
unfolding str_eq
set_option o (username, password) =
    if str_eq o.name (codes "username")
    then (some o.value, password)
    else if str_eq o.name (codes "password")
    then (username, some o.value)
    else (username, password)

-- What the loop over the options has set: the name and the password.
unfoldable pub static_options :
    List ConfigOption → Option Bytes × Option Bytes → Option Bytes × Option Bytes
unfolding set_option
static_options [] given = given
static_options (o ∷ options) given = static_options options (set_option o given)

-- `-1` is `none`.
abbrev pub set_up : Bool → Option Bytes × Option Bytes → Option AuthStatic
set_up need_user (username, none) = none
set_up true (none, some password) = none
set_up false (none, some password) = some (record { username = none; password = password })
set_up need_user (some name, some password) =
    some (record { username = some name; password = password })

-- `auth_get_static_auth` for an authenticator of the type.
unfoldable pub get_static_auth : Bytes → List ConfigOption → Option AuthStatic
unfolding static_options str_eq
get_static_auth type options =
    let given = static_options options (none, none) in
    if str_eq type (codes "static")
    then set_up true given
    else if str_eq type (codes "legacy-password")
    then set_up false given
    else none
