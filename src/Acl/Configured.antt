-- ===== src/Acl/Configured.antt =====
-- `acl_new_from_xml_node` of src/acl.c: the ACL of a configuration and its tests.
use icecast_server.Prelude.{
  str_eq, pos, negsuc, String, if◌then◌else◌, ℕ, ◌<◌, ◌≤◌, suc, zero, Bool, true, false, List, [],
  ◌∷◌, none, some, Bytes, ◌==◌, length, ◌≡◌, refl, arith, Bool-cases, inl, inr, All, ℤ, codes,
  get_or,
}
use icecast_server.Acl.{
  chosen, set_max_connection_duration, set_max_connections_per_user, policy_error, Policy, allow,
  deny, Acl, HttpMethods, AdminCommand, set_all, set_property, set_properties, acl_new, calloc_acl,
  acl_new_from_xml_node, Property, test_method, test_admin, test_web, find_policy,
}
use icecast_server.Acl.Valid.{
  IsPolicy, IsValid, Keeps, set_admin_str-IsValid, set_method_str-IsValid, set_web_policy-IsValid,
  set_limits-IsValid, All-replicate, length-replicate,
}

if-IsValid :
    (http : HttpMethods) (b : Bool) (x y : Acl)
    → IsValid http x
    → IsValid http y
    → IsValid http (if b then x else y)
if-IsValid http true x y h k = h
if-IsValid http false x y h k = k

limits_keep :
    (http : HttpMethods) (d : ℤ) (n : ℕ)
    → Keeps http (set_max_connection_duration d) × Keeps http (set_max_connections_per_user n)
unfolding set_max_connections_per_user set_max_connection_duration
limits_keep http d n = (
  λ a. set_limits-IsValid http d a.max_connections_per_user a,
  λ a. set_limits-IsValid http a.max_connection_duration n a,
)

find_policy-IsPolicy :
    (es : List AdminCommand) (c : ℕ) (p : Policy)
    → All (λ e. IsPolicy e.policy) es
    → IsPolicy p
    → IsPolicy (find_policy es c p)
unfolding find_policy
find_policy-IsPolicy [] c p h k = k
find_policy-IsPolicy (e ∷ es) c p h k = elim (Bool-cases (e.command == c)) [
  | inl q ↦ rw q h.0
  | inr q ↦ rw q (find_policy-IsPolicy es c p h.1 k)
]

get_or-IsPolicy :
    (ps : List Policy) (i : ℕ)
    → All IsPolicy ps
    → i < length ps
    → IsPolicy (get_or ps i policy_error)
get_or-IsPolicy [] i h k = absurd (omega arith)
get_or-IsPolicy (p ∷ ps) zero h k = h.0
get_or-IsPolicy (p ∷ ps) (suc i) h k = get_or-IsPolicy ps i h.1 (omega arith)

module _ (http : HttpMethods) (atoi : Bytes → ℤ) where
  set_all-IsValid : (p : Policy) → Keeps http (set_all http atoi p)
  unfolding set_all
  set_all-IsValid p acl v =
      set_web_policy-IsValid http p _ (
        set_admin_str-IsValid http p (codes "*") _
          (set_method_str-IsValid http p (codes "*") acl v))

  set_property-IsValid : (name tmp : Bytes) → Keeps http (set_property http atoi name tmp)
  unfolding set_property
  set_property-IsValid name tmp acl v =
      let named : String → Bool = λ word. str_eq name (codes word) in
      let yes = chosen http atoi allow tmp in
      let no = chosen http atoi deny tmp in
      if-IsValid http (named "allow-method") _ _ (set_method_str-IsValid http allow tmp acl v) (
        if-IsValid http (named "deny-method") _ _ (set_method_str-IsValid http deny tmp acl v) (
          if-IsValid http (named "allow-admin") _ _ (set_admin_str-IsValid http allow tmp acl v) (
            if-IsValid http (named "deny-admin") _ _ (set_admin_str-IsValid http deny tmp acl v) (
              if-IsValid http (named "allow-web") _ _ (set_web_policy-IsValid http yes acl v) (
                if-IsValid http (named "deny-web") _ _ (set_web_policy-IsValid http no acl v) (
                  if-IsValid http (named "allow-all") _ _ (set_all-IsValid yes acl v) (
                    if-IsValid http (named "deny-all") _ _ (set_all-IsValid no acl v) (
                      if-IsValid http (named "connections-per-user") _ _
                        ((limits_keep http (pos 0) _).1 acl v)
                        (if-IsValid http (named "connection-duration") _ _
                          ((limits_keep http _ 0).0 acl v) v)))))))))

  set_properties-IsValid : (ps : List Property) → Keeps http (set_properties http atoi ps)
  unfolding set_properties
  set_properties-IsValid [] acl v = v
  set_properties-IsValid ((name, none) ∷ ps) acl v = set_properties-IsValid ps acl v
  set_properties-IsValid ((name, some tmp) ∷ ps) acl v =
      set_properties-IsValid ps _ (set_property-IsValid name tmp acl v)

  calloc_acl-IsValid : IsValid http (calloc_acl http atoi)
  calloc_acl-IsValid = record {
    sized = length-replicate (suc http.req_unknown) allow;
    methods = All-replicate (suc http.req_unknown) allow refl;
    bounded = omega arith;
    commands = tt;
    default = refl;
    web = refl;
  }

  acl_new-IsValid : IsValid http (acl_new http atoi)
  unfolding acl_new
  acl_new-IsValid =
      let acl4 = set_admin_str-IsValid http allow (codes "buildm3u") _ (
        set_admin_str-IsValid http deny (codes "*") _ (
          set_method_str-IsValid http allow (codes "get") _
            (set_method_str-IsValid http deny (codes "*") _ calloc_acl-IsValid))) in
      let acl5 = set_web_policy-IsValid http allow _ acl4 in
      (limits_keep http (pos 0) 0).1 _ ((limits_keep http (negsuc 0) 0).0 _ acl5)

  -- The three tests give an answer: for a method in range, for any command, and for the web.
  pub record Answers (acl : Acl) : Type 0 where
    pub by_method :
        (m : ℕ)
        → http.req_none ≤ m
        → m ≤ http.req_unknown
        → IsPolicy (test_method http (some acl) m)
    pub by_command : (c : ℕ) → IsPolicy (test_admin (some acl) c)
    pub by_web : IsPolicy (test_web (some acl))

  IsValid-Answers : (acl : Acl) → IsValid http acl → Answers acl
  unfolding test_method test_admin test_web
  IsValid-Answers acl v = record {
    by_method = λ m l u.
        let r = get_or-IsPolicy acl.method m v.methods (omega (arith, v.sized)) in
        ground (arith, r);
    by_command = λ c.
        find_policy-IsPolicy acl.admin_commands c acl.admin_command_policy v.commands v.default;
    by_web = v.web;
  }

  -- Whatever the properties of a node are, `acl_new_from_xml_node` returns an ACL with a policy, allow
  -- or deny, for each method, with at most `max_admin_commands` commands, and of which the tests of a
  -- method in range, of any admin command and of the web return allow or deny.
  pub acl_new_from_xml_node-IsValid :
      (properties : List Property)
      → (acl : Acl) × (acl_new_from_xml_node http atoi (some properties) ≡ some acl)
        × IsValid http acl
        × Answers acl
  unfolding acl_new_from_xml_node
  acl_new_from_xml_node-IsValid properties =
      let v = set_properties-IsValid properties (acl_new http atoi) acl_new-IsValid in
      (set_properties http atoi properties (acl_new http atoi), refl, v, IsValid-Answers _ v)
