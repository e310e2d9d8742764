-- ===== src/Acl/Valid.antt =====
-- Well-formedness of an ACL, through each setter of src/acl.c.
use icecast_server.Prelude.{
  ℕ, ◌≤◌, suc, zero, false, List, [], ◌∷◌, Option, none, some, Bytes, ◌==◌, ◌∙◌, split_at_byte,
  length, ◌≡◌, refl, arith, ap, Bool-cases, inl, inr, All, All-append, replicate, set, length-set,
  length-append, ℤ, codes, str_eq, ltb,
}
use icecast_server.Admin.{admin_get_command}
use icecast_server.Acl.{
  Policy, Status, ok, failed, Acl, Outcome, go_on, set_item, set_items, skip_spaces, set_any_str,
  is_error, HttpMethods, AdminCommand, max_admin_commands, same_policy, drop_policy, set_command,
  set_admin_callback, set_admin_str, set_web_policy, set_method_callback, set_method_str,
}

-- It is ACL_POLICY_ALLOW or ACL_POLICY_DENY.
abbrev pub IsPolicy : Policy → Type 0
IsPolicy p = is_error p ≡ false

pub record IsValid (http : HttpMethods) (acl : Acl) : Type 0 where
  pub sized : length acl.method ≡ suc http.req_unknown
  pub methods : All IsPolicy acl.method
  pub bounded : length acl.admin_commands ≤ max_admin_commands
  pub commands : All (λ e. IsPolicy e.policy) acl.admin_commands
  pub default : IsPolicy acl.admin_command_policy
  pub web : IsPolicy acl.web_policy

abbrev pub Keeps : HttpMethods → (Acl → Acl) → Type 0
Keeps http f = (acl : Acl) → IsValid http acl → IsValid http (f acl)

pub All-replicate : (n : ℕ) (p : Policy) → IsPolicy p → All IsPolicy (replicate n p)
All-replicate zero p h = tt
All-replicate (suc n) p h = (h, All-replicate n p h)

pub length-replicate : (n : ℕ) (p : Policy) → length (replicate n p) ≡ n
length-replicate zero p = refl
length-replicate (suc n) p = ap suc (length-replicate n p)

All-set :
    (ps : List Policy) (i : ℕ) (p : Policy)
    → IsPolicy p
    → All IsPolicy ps
    → All IsPolicy (set ps i p)
All-set [] i p h k = tt
All-set (q ∷ ps) zero p h k = (h, k.1)
All-set (q ∷ ps) (suc i) p h k = (k.0, All-set ps i p h k.1)

drop_policy-All :
    (p : Policy) (es : List AdminCommand)
    → All (λ e. IsPolicy e.policy) es
    → All (λ e. IsPolicy e.policy) (drop_policy p es) × (length (drop_policy p es) ≤ length es)
unfolding drop_policy
drop_policy-All p [] h = (tt, omega arith)
drop_policy-All p (e ∷ es) h =
    let r = drop_policy-All p es h.1 in
    elim (Bool-cases (same_policy e.policy p)) [
      | inl k ↦ rw k (r.0, omega (arith, r.1))
      | inr k ↦ rw k ((h.0, r.0), omega (arith, r.1))
    ]

module _ (http : HttpMethods) where
  go_on-IsValid :
      (next : Acl → Bytes → Outcome) (s : Status) (acl : Acl) (after : Option Bytes)
      → ((a : Acl) (t : Bytes) → IsValid http a → IsValid http (next a t).acl)
      → IsValid http acl
      → IsValid http (go_on next s acl after).acl
  unfolding go_on
  go_on-IsValid next failed acl after n v = v
  go_on-IsValid next ok acl none n v = v
  go_on-IsValid next ok acl (some rest) n v = n acl rest v

  module _ (callback : Acl → Bytes → Outcome)
      (keeps : (a : Acl) (t : Bytes) → IsValid http a → IsValid http (callback a t).acl) where
    set_item-IsValid :
        (acl : Acl) (item : Bytes)
        → IsValid http acl
        → IsValid http (set_item callback acl item).acl
    unfolding set_item
    set_item-IsValid acl item v = elim (Bool-cases (ltb 63 (length item))) [
      | inl e ↦ rw e v
      | inr e ↦ rw e (keeps acl item v)
    ]

    set_items-IsValid :
        (n : ℕ) (acl : Acl) (str : Bytes)
        → IsValid http acl
        → IsValid http (set_items n callback acl str).acl
    unfolding set_items
    set_items-IsValid zero acl str v = v
    set_items-IsValid (suc n) acl str v =
        let (item, after) = split_at_byte b',' (skip_spaces str) in
        go_on-IsValid (set_items n callback) (set_item callback acl item).status _ after
          (set_items-IsValid n) (set_item-IsValid acl item v)

  set_any_str-IsValid :
      (callback : Policy → Acl → Bytes → Outcome) (p : Policy) (str : Bytes)
      → (IsPolicy p → (a : Acl) (t : Bytes) → IsValid http a → IsValid http (callback p a t).acl)
      → Keeps http (λ a. (set_any_str callback p str a).acl)
  unfolding set_any_str
  set_any_str-IsValid callback p str keeps acl v = elim (Bool-cases (is_error p)) [
    | inl e ↦ rw e v
    | inr e ↦ rw e (set_items-IsValid (callback p) (keeps e) (suc (length str)) acl str v)
  ]

  set_command-IsValid :
      (c : Option ℕ) (p : Policy) → IsPolicy p → Keeps http (λ a. (set_command c p a).acl)
  unfolding set_command
  set_command-IsValid none p h acl v = v
  set_command-IsValid (some zero) p h acl v =
      let d = drop_policy-All p acl.admin_commands v.commands in
      record {
        sized = v.sized;
        methods = v.methods;
        bounded = omega (arith, d.1, v.bounded);
        commands = d.0;
        default = h;
        web = v.web;
      }
  set_command-IsValid (some (suc c)) p h acl v =
      elim (Bool-cases (length acl.admin_commands == max_admin_commands)) [
        | inl e ↦ rw e v
        | inr e ↦
            let new : AdminCommand = record { command = suc c; policy = p } in
            rw e (record {
              sized = v.sized;
              methods = v.methods;
              bounded = ground (arith, v.bounded, e, length-append acl.admin_commands (new ∷ []));
              commands =
                  All-append (λ r. IsPolicy r.policy) acl.admin_commands (new ∷ []) v.commands
                    (h, tt);
              default = v.default;
              web = v.web;
            })
      ]

  pub set_admin_str-IsValid :
      (p : Policy) (str : Bytes) → Keeps http (λ a. (set_admin_str p str a).acl)
  unfolding set_admin_str set_admin_callback
  set_admin_str-IsValid p str =
      set_any_str-IsValid set_admin_callback p str
        (λ h a t. set_command-IsValid (admin_get_command t) p h a)

  set_method_callback-IsValid :
      (p : Policy)
      → IsPolicy p
      → (a : Acl) (t : Bytes) → IsValid http a
      → IsValid http (set_method_callback http p a t).acl
  unfolding set_method_callback
  set_method_callback-IsValid p h a t v = elim (Bool-cases (str_eq t (codes "*"))) [
    | inl e ↦ rw e (record {
      sized = length-replicate (suc http.req_unknown) p;
      methods = All-replicate (suc http.req_unknown) p h;
      bounded = v.bounded;
      commands = v.commands;
      default = v.default;
      web = v.web;
    })
    | inr e ↦ elim (Bool-cases (http.str_to_method t == http.req_unknown)) [
      | inl k ↦ rw (e, k) v
      | inr k ↦
          rw (e, k)
            (record {
              sized = length-set a.method (http.str_to_method t) p ∙ v.sized;
              methods = All-set a.method (http.str_to_method t) p h v.methods;
              bounded = v.bounded;
              commands = v.commands;
              default = v.default;
              web = v.web;
            })
    ]
  ]

  pub set_method_str-IsValid :
      (p : Policy) (str : Bytes) → Keeps http (λ a. (set_method_str http p str a).acl)
  unfolding set_method_str
  set_method_str-IsValid p str =
      set_any_str-IsValid (set_method_callback http) p str (set_method_callback-IsValid p)

  pub set_web_policy-IsValid : (p : Policy) → Keeps http (λ a. (set_web_policy p a).acl)
  unfolding set_web_policy
  set_web_policy-IsValid p acl v = elim (Bool-cases (is_error p)) [
    | inl e ↦ rw e v
    | inr e ↦ rw e (record {
      sized = v.sized;
      methods = v.methods;
      bounded = v.bounded;
      commands = v.commands;
      default = v.default;
      web = e;
    })
  ]

  -- The limits play no part.
  pub set_limits-IsValid :
      (d : ℤ) (n : ℕ)
      → Keeps http (λ a. record a { max_connection_duration = d; max_connections_per_user = n })
  set_limits-IsValid d n acl v = record {
    sized = v.sized;
    methods = v.methods;
    bounded = v.bounded;
    commands = v.commands;
    default = v.default;
    web = v.web;
  }
