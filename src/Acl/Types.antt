-- ===== src/Acl/Types.antt =====
-- The data of an ACL: src/acl.h and `struct acl_tag` of src/acl.c.
use icecast_server.Prelude.{ℕ, ◌≤◌, Bool, true, false, List, Bytes, ℤ}

pub data Policy : Type 0 where
  policy_error allow deny : Policy

-- What a setter returns: 0 or -1.
pub data Status : Type 0 where
  ok failed : Status

-- `httpp_request_type_e` and `httpp_str_to_method`, which returns one of its values.
pub record HttpMethods : Type 0 where
  pub req_none : ℕ
  pub req_unknown : ℕ
  pub str_to_method : Bytes → ℕ
  pub str_to_method_lem : (s : Bytes) → str_to_method s ≤ req_unknown

pub record AdminCommand : Type 0 where
  pub command : ℕ
  pub policy : Policy

pub record Acl : Type 0 where
  pub method : List Policy
  pub admin_commands : List AdminCommand
  pub admin_command_policy : Policy
  pub web_policy : Policy
  pub max_connection_duration : ℤ
  pub max_connections_per_user : ℕ

-- `MAX_ADMIN_COMMANDS`
abbrev pub max_admin_commands : ℕ
max_admin_commands = 32

-- Is it neither ACL_POLICY_ALLOW nor ACL_POLICY_DENY?
abbrev pub is_error : Policy → Bool
is_error policy_error = true
is_error allow = false
is_error deny = false

abbrev pub same_policy : Policy → Policy → Bool
same_policy policy_error policy_error = true
same_policy allow allow = true
same_policy deny deny = true
same_policy _ _ = false

-- What a setter leaves: its return value and the ACL.
pub record Outcome : Type 0 where
  pub status : Status
  pub acl : Acl
