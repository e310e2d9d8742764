-- ===== src/Acl/Xml.antt =====
-- `acl_new` and `acl_new_from_xml_node` of src/acl.c. A node is the list of its properties, each with
-- what `xmlGetProp` returns for its name.
use icecast_server.Prelude.{
  suc, Bool, ◌||◌, List, [], ◌∷◌, Option, none, some, Bytes, codes, str_eq, if◌then◌else◌,
  contains_byte, replicate, ℤ, pos, negsuc, to_unsigned,
}
use icecast_server.Words.{str_to_bool}
use icecast_server.Acl.Types.{Policy, policy_error, allow, deny, HttpMethods, Acl}
use icecast_server.Acl.Setters.{
  set_method_str, set_admin_str, set_web_policy, set_max_connection_duration,
  set_max_connections_per_user,
}

abbrev pub Property : Type 0
Property = Bytes × Option Bytes

-- The other policy.
abbrev pub opposite : Policy → Policy
opposite policy_error = policy_error
opposite allow = deny
opposite deny = allow

module _ (http : HttpMethods) (atoi : Bytes → ℤ) where
  -- What `calloc` returns: 0 is ACL_POLICY_ALLOW.
  abbrev pub calloc_acl : Acl
  calloc_acl = record {
    method = replicate (suc http.req_unknown) allow;
    admin_commands = [];
    admin_command_policy = allow;
    web_policy = allow;
    max_connection_duration = pos 0;
    max_connections_per_user = 0;
  }

  -- All three of method, admin and web.
  unfoldable pub set_all : Policy → Acl → Acl
  unfolding set_method_str set_admin_str set_web_policy
  set_all policy acl =
      let acl1 = (set_method_str http policy (codes "*") acl).acl in
      let acl2 = (set_admin_str policy (codes "*") acl1).acl in (set_web_policy policy acl2).acl

  -- `strstr(tmp, "*") || util_str_to_bool(tmp)`
  unfoldable pub is_yes : Bytes → Bool
  unfolding str_to_bool contains_byte
  is_yes tmp = contains_byte b'*' tmp || str_to_bool atoi (some tmp)

  unfoldable pub is_unlimited : Bytes → Bool
  unfolding str_eq
  is_unlimited tmp = str_eq tmp (codes "*") || str_eq tmp (codes "unlimited")

  unfoldable pub chosen : Policy → Bytes → Policy
  unfolding is_yes
  chosen policy tmp = if is_yes tmp then policy else opposite policy

  -- The chain of tests on a property's name.
  unfoldable pub set_property : Bytes → Bytes → Acl → Acl
  unfolding set_method_str set_admin_str set_web_policy set_all chosen is_unlimited str_eq
      to_unsigned set_max_connection_duration set_max_connections_per_user
  set_property name tmp acl =
      if str_eq name (codes "allow-method")
      then (set_method_str http allow tmp acl).acl
      else if str_eq name (codes "deny-method")
      then (set_method_str http deny tmp acl).acl
      else if str_eq name (codes "allow-admin")
      then (set_admin_str allow tmp acl).acl
      else if str_eq name (codes "deny-admin")
      then (set_admin_str deny tmp acl).acl
      else if str_eq name (codes "allow-web")
      then (set_web_policy (chosen allow tmp) acl).acl
      else if str_eq name (codes "deny-web")
      then (set_web_policy (chosen deny tmp) acl).acl
      else if str_eq name (codes "allow-all")
      then set_all (chosen allow tmp) acl
      else if str_eq name (codes "deny-all")
      then set_all (chosen deny tmp) acl
      else if str_eq name (codes "connections-per-user")
      then set_max_connections_per_user (if is_unlimited tmp then 0 else to_unsigned (atoi tmp)) acl
      else if str_eq name (codes "connection-duration")
      then set_max_connection_duration (if is_unlimited tmp then pos 0 else atoi tmp) acl
      else acl

  unfoldable pub set_properties : List Property → Acl → Acl
  unfolding set_property
  set_properties [] acl = acl
  set_properties ((name, none) ∷ rest) acl = set_properties rest acl
  set_properties ((name, some tmp) ∷ rest) acl = set_properties rest (set_property name tmp acl)

  -- `calloc` does not fail.
  unfoldable pub acl_new : Acl
  unfolding set_method_str set_admin_str set_web_policy set_max_connection_duration
      set_max_connections_per_user
  acl_new =
      let acl1 = (set_method_str http deny (codes "*") calloc_acl).acl in
      let acl2 = (set_method_str http allow (codes "get") acl1).acl in
      let acl3 = (set_admin_str deny (codes "*") acl2).acl in
      let acl4 = (set_admin_str allow (codes "buildm3u") acl3).acl in
      let acl5 = (set_web_policy allow acl4).acl in
      set_max_connections_per_user 0 (set_max_connection_duration (negsuc 0) acl5)

  unfoldable pub acl_new_from_xml_node : Option (List Property) → Option Acl
  unfolding set_properties acl_new
  acl_new_from_xml_node none = none
  acl_new_from_xml_node (some properties) = some (set_properties properties acl_new)
