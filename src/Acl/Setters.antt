-- ===== src/Acl/Setters.antt =====
-- The setters and the tests of an ACL: src/acl.c.
use icecast_server.Prelude.{
  ℕ, suc, zero, ◌||◌, List, [], ◌∷◌, ◌++◌, Option, none, some, Bytes, codes, str_eq, ◌==◌, ltb,
  if◌then◌else◌, split_at_byte, length, get_or, set, replicate, ℤ, negsuc, to_signed,
}
use icecast_server.Admin.{admin_get_command}
use icecast_server.Acl.Types.{
  Policy, policy_error, Status, ok, failed, HttpMethods, AdminCommand, Acl, max_admin_commands,
  is_error, same_policy, Outcome,
}

unfoldable pub skip_spaces : Bytes → Bytes
skip_spaces [] = []
skip_spaces (c ∷ cs) = let rest = skip_spaces cs in if c == b' ' then rest else c ∷ cs

-- `if (ret) return ret`, and on after the comma, if there is one.
unfoldable pub go_on : (Acl → Bytes → Outcome) → Status → Acl → Option Bytes → Outcome
go_on next failed acl after = record { status = failed; acl = acl }
go_on next ok acl none = record { status = ok; acl = acl }
go_on next ok acl (some rest) = next acl rest

-- `if (len > (sizeof(buf) - 1)) return -1`, and the callback.
unfoldable pub set_item : (Acl → Bytes → Outcome) → Acl → Bytes → Outcome
set_item callback acl item =
    if ltb 63 (length item) then record { status = failed; acl = acl } else callback acl item

-- The loop of `acl_set_ANY_str`, for so many rounds at most.
unfoldable pub set_items : ℕ → (Acl → Bytes → Outcome) → Acl → Bytes → Outcome
unfolding set_item go_on skip_spaces split_at_byte
set_items zero callback acl str = record { status = failed; acl = acl }
set_items (suc fuel) callback acl str =
    let (item, after) = split_at_byte b',' (skip_spaces str) in
    let r = set_item callback acl item in go_on (set_items fuel callback) r.status r.acl after

-- `acl_set_ANY_str` on an ACL and a string that are not NULL.
unfoldable pub set_any_str : (Policy → Acl → Bytes → Outcome) → Policy → Bytes → Acl → Outcome
unfolding set_items
set_any_str callback policy str acl =
    if is_error policy
    then record { status = failed; acl = acl }
    else set_items (suc (length str)) (callback policy) acl str

-- `acl_set_admin_str__callbck`: the compressing loop
unfoldable pub drop_policy : Policy → List AdminCommand → List AdminCommand
drop_policy policy [] = []
drop_policy policy (e ∷ es) =
    let rest = drop_policy policy es in if same_policy e.policy policy then rest else e ∷ rest

unfoldable pub set_command : Option ℕ → Policy → Acl → Outcome
unfolding drop_policy
set_command none policy acl = record { status = failed; acl = acl }
set_command (some zero) policy acl = record {
  status = ok;
  acl = record acl {
    admin_command_policy = policy;
    admin_commands = drop_policy policy acl.admin_commands;
  };
}
set_command (some (suc c)) policy acl =
    if length acl.admin_commands == max_admin_commands
    then record { status = failed; acl = acl }
    else record {
      status = ok;
      acl = record acl {
        admin_commands = acl.admin_commands ++ record { command = suc c; policy = policy } ∷ [];
      };
    }

unfoldable pub set_admin_callback : Policy → Acl → Bytes → Outcome
unfolding set_command admin_get_command
set_admin_callback policy acl str = set_command (admin_get_command str) policy acl

-- The loop of `acl_test_admin`, and the policy where it finds nothing
unfoldable pub find_policy : List AdminCommand → ℕ → Policy → Policy
find_policy [] command default = default
find_policy (e ∷ es) command default =
    let rest = find_policy es command default in if e.command == command then e.policy else rest

unfoldable pub test_admin : Option Acl → ℕ → Policy
unfolding find_policy
test_admin none command = policy_error
test_admin (some acl) command = find_policy acl.admin_commands command acl.admin_command_policy

unfoldable pub set_admin_str : Policy → Bytes → Acl → Outcome
unfolding set_any_str set_admin_callback
set_admin_str = set_any_str set_admin_callback

unfoldable pub set_web_policy : Policy → Acl → Outcome
set_web_policy policy acl =
    if is_error policy
    then record { status = failed; acl = acl }
    else record { status = ok; acl = record acl { web_policy = policy } }

unfoldable pub test_web : Option Acl → Policy
test_web none = policy_error
test_web (some acl) = acl.web_policy

unfoldable pub set_max_connection_duration : ℤ → Acl → Acl
set_max_connection_duration n acl = record acl { max_connection_duration = n }

unfoldable pub get_max_connection_duration : Option Acl → ℤ
get_max_connection_duration none = negsuc 0
get_max_connection_duration (some acl) = acl.max_connection_duration

unfoldable pub set_max_connections_per_user : ℕ → Acl → Acl
set_max_connections_per_user n acl = record acl { max_connections_per_user = n }

unfoldable pub get_max_connections_per_user : Option Acl → ℤ
unfolding to_signed
get_max_connections_per_user none = negsuc 0
get_max_connections_per_user (some acl) = to_signed acl.max_connections_per_user

module _ (http : HttpMethods) where
  unfoldable pub set_method_callback : Policy → Acl → Bytes → Outcome
  unfolding str_eq
  set_method_callback policy acl str =
      let method = http.str_to_method str in
      if str_eq str (codes "*")
      then record {
        status = ok;
        acl = record acl { method = replicate (suc http.req_unknown) policy };
      }
      else if method == http.req_unknown
      then record { status = failed; acl = acl }
      else record { status = ok; acl = record acl { method = set acl.method method policy } }

  unfoldable pub set_method_str : Policy → Bytes → Acl → Outcome
  unfolding set_any_str set_method_callback
  set_method_str = set_any_str set_method_callback

  unfoldable pub test_method : Option Acl → ℕ → Policy
  test_method none method = policy_error
  test_method (some acl) method =
      if ltb method http.req_none || ltb http.req_unknown method
      then policy_error
      else get_or acl.method method policy_error
