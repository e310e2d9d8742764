-- ===== src/Tests/Acl.antt =====
-- Tests of `Acl`.
use icecast_server.Prelude.{
  ℕ, ◌≤◌, ◌∷◌, [], ◌≡◌, ◌≢◌, ◌↔◌, refl, some, arith, Bytes, codes, str_eq, ℤ, pos, if◌then◌else◌,
  ◌==◌, map,
}
use icecast_server.Admin.{admin_get_command}
use icecast_server.Acl.{
  Acl, HttpMethods, allow, deny, acl_new, acl_new_from_xml_node, set_admin_callback, set_any_str,
  test_admin, test_method, test_web, skip_spaces,
}
use icecast_server.Acl.Items.{set_each, split_by, set_any_str-each}
use icecast_server.Acl.Rules.{Agree, set_admin_any-Agree, acl_new-tests}
use icecast_server.Acl.Configured.{Answers, acl_new_from_xml_node-IsValid}
use icecast_server.Acl.Valid.{IsValid}

-- A parser that knows two methods.
number_of : Bytes → ℕ
unfolding str_eq
number_of s = if str_eq s (codes "get") then 1 else if str_eq s (codes "put") then 2 else 3

number_of_lem : (s : Bytes) → number_of s ≤ 3
unfolding number_of
number_of_lem s = ground arith

abbrev http : HttpMethods
http = record {
  req_none = 0;
  req_unknown = 3;
  str_to_method = number_of;
  str_to_method_lem = number_of_lem;
}

abbrev atoi : Bytes → ℤ
atoi s = pos 0

abbrev rules : Bytes
rules = codes "stats, listmounts"

set_any_str-each_example :
    set_any_str set_admin_callback allow rules (acl_new http atoi)
    ≡ set_each
        (set_admin_callback allow)
        (acl_new http atoi)
        (map skip_spaces (split_by b',' rules))
set_any_str-each_example = set_any_str-each set_admin_callback allow rules (acl_new http atoi) refl

acl_new_from_xml_node-IsValid_example :
    (acl : Acl) × (acl_new_from_xml_node http atoi (some ((codes "allow-admin", some rules) ∷ []))
      ≡ some acl)
    × IsValid http acl
    × Answers http atoi acl
acl_new_from_xml_node-IsValid_example =
    acl_new_from_xml_node-IsValid http atoi ((codes "allow-admin", some rules) ∷ [])

get_is_known : http.str_to_method (codes "get") ≢ http.req_unknown
unfolding number_of
get_is_known e = cc

acl_new-tests_example :
    ((m : ℕ)
      → 0 ≤ m
      → m ≤ 3
      → test_method http (some (acl_new http atoi)) m
        ≡ (if m == number_of (codes "get") then allow else deny))
    × ((b : ℕ)
        → admin_get_command (codes "buildm3u") ≡ some b
        → (c : ℕ) → test_admin (some (acl_new http atoi)) c ≡ (if b == c then allow else deny))
    × (test_web (some (acl_new http atoi)) ≡ allow)
acl_new-tests_example = acl_new-tests http atoi get_is_known

-- Command 8 is allowed by the first of two entries.
abbrev twice : Acl
twice = record (acl_new http atoi) {
  admin_commands =
      record { command = 8; policy = allow } ∷ record { command = 8; policy = deny } ∷ [];
}

set_admin_any-Agree_example :
    (test_admin (some (set_admin_callback allow twice (codes "*")).acl) 8 ≡ allow)
    ↔ Agree 8 allow twice.admin_commands
set_admin_any-Agree_example = set_admin_any-Agree allow twice 8

-- The item "*" turns what was allowed into what is denied.
any_denies :
    (test_admin (some twice) 8 ≡ allow)
    × (test_admin (some (set_admin_callback allow twice (codes "*")).acl) 8 ≡ deny)
unfolding test_admin set_admin_callback
any_denies = (refl, refl)
