-- ===== src/Acl/Rules.antt =====
-- What the rules of an ACL mean to its tests.
use icecast_server.Prelude.{
  ◌≤◌, if◌then◌else◌, ltb, false, true, get_or-set_self, get_or-set_ne, ◌∙◌, ℕ, ◌<◌, suc, zero,
  List, [], ◌∷◌, some, Bytes, ◌==◌, ◌≡◌, ◌≢◌, ◌↔◌, refl, arith, Bool-cases, inl, inr, All, ℤ, codes,
  get_or, set, replicate,
}
use icecast_server.Acl.{
  test_web, test_method, Policy, allow, deny, policy_error, Acl, HttpMethods, AdminCommand, acl_new,
  same_policy, drop_policy, test_admin, set_admin_callback, find_policy,
}
use icecast_server.Acl.Valid.{length-replicate}
use icecast_server.Admin.{admin_get_command}

-- Every entry for the command has the policy.
abbrev pub Agree : ℕ → Policy → List AdminCommand → Type 0
Agree c p es = All (λ e. e.command ≡ c → e.policy ≡ p) es

same_policy_iff : (p q : Policy) → (same_policy p q ≡ true) ↔ (p ≡ q)
same_policy_iff policy_error policy_error = ground arith
same_policy_iff policy_error allow = ground arith
same_policy_iff policy_error deny = ground arith
same_policy_iff allow policy_error = ground arith
same_policy_iff allow allow = ground arith
same_policy_iff allow deny = ground arith
same_policy_iff deny policy_error = ground arith
same_policy_iff deny allow = ground arith
same_policy_iff deny deny = ground arith

drop_policy-Agree :
    (es : List AdminCommand) (c : ℕ) (p : Policy)
    → (find_policy (drop_policy p es) c p ≡ p) ↔ Agree c p es
unfolding drop_policy find_policy
drop_policy-Agree [] c p = ground arith
drop_policy-Agree (e ∷ es) c p =
    ground (arith, drop_policy-Agree es c p, same_policy_iff e.policy p)

-- After an item "*" the test of a command gives the policy of that item exactly if no entry for the
-- command has the other policy, whatever the test gave before.
pub set_admin_any-Agree :
    (p : Policy) (acl : Acl) (c : ℕ)
    → (test_admin (some (set_admin_callback p acl (codes "*")).acl) c ≡ p)
      ↔ Agree c p acl.admin_commands
unfolding test_admin set_admin_callback
set_admin_any-Agree p acl c = drop_policy-Agree acl.admin_commands c p

get_or-replicate : (n i : ℕ) (p d : Policy) → i < n → get_or (replicate n p) i d ≡ p
get_or-replicate zero i p d h = absurd (omega arith)
get_or-replicate (suc n) zero p d h = refl
get_or-replicate (suc n) (suc i) p d h = get_or-replicate n i p d (omega arith)

module _ (http : HttpMethods) (atoi : Bytes → ℤ) where
  abbrev fresh : Acl
  fresh = acl_new http atoi

  -- The methods of a new ACL.
  fresh_methods :
      http.str_to_method (codes "get") ≢ http.req_unknown
      → fresh.method
        ≡ set (replicate (suc http.req_unknown) deny) (http.str_to_method (codes "get")) allow
  unfolding acl_new
  fresh_methods h = elim (Bool-cases (http.str_to_method (codes "get") == http.req_unknown)) [
    | inl e ↦ absurd (h (ground (arith, e)))
    | inr e ↦ rw e refl
  ]

  get_allowed :
      (g m n : ℕ)
      → g < n
      → m < n
      → get_or (set (replicate n deny) g allow) m policy_error ≡ (if m == g then allow else deny)
  get_allowed g m n h k = elim (Bool-cases (m == g)) [
    | inl e ↦
        let same : m ≡ g = ground (arith, e) in
        rw (e, same)
          (get_or-set_self (replicate n deny) g allow policy_error
            (omega (arith, length-replicate n deny)))
    | inr e ↦
        let other : g ≢ m = λ q. ground (arith, e, q) in
        rw e (
          get_or-set_ne (replicate n deny) g m allow policy_error other
          ∙ get_or-replicate n m deny policy_error k)
  ]

  fresh_admin : (c : ℕ) → test_admin (some fresh) c ≡ (if 28 == c then allow else deny)
  unfolding acl_new test_admin
  fresh_admin c = elim (Bool-cases (http.str_to_method (codes "get") == http.req_unknown)) [
    | inl e ↦ rw e refl
    | inr e ↦ rw e refl
  ]

  fresh_web : test_web (some fresh) ≡ allow
  unfolding acl_new test_web
  fresh_web = refl

  -- If the parser knows the method "get", a new ACL allows that method and no other method in range, of
  -- the admin commands `buildm3u` and no other, and the web.
  pub acl_new-tests :
      http.str_to_method (codes "get") ≢ http.req_unknown
      → ((m : ℕ)
          → http.req_none ≤ m
          → m ≤ http.req_unknown
          → test_method http (some fresh) m
            ≡ (if m == http.str_to_method (codes "get") then allow else deny))
        × ((b : ℕ)
            → admin_get_command (codes "buildm3u") ≡ some b
            → (c : ℕ) → test_admin (some fresh) c ≡ (if b == c then allow else deny))
        × (test_web (some fresh) ≡ allow)
  unfolding test_method
  acl_new-tests h =
      let get = http.str_to_method (codes "get") in
      let known = http.str_to_method_lem (codes "get") in
      (
        λ m l u.
            let r = get_allowed get m (suc http.req_unknown) (omega (arith, known)) (omega arith) in
            let low : ltb m http.req_none ≡ false = ground (arith, l) in
            let high : ltb http.req_unknown m ≡ false = ground (arith, u) in
            rw (low, high, fresh_methods h) r,
        λ b e c. let same : b ≡ 28 = unfold admin_get_command in cc in rw same (fresh_admin c),
        fresh_web,
      )
