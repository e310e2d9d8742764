-- ===== src/Auth/Granted.antt =====
-- What a client that passed the stack was granted, and by whom.
use icecast_server.Prelude.{
  [], Bool-cases, ltb, arith, ◌∙◌, sym, ap, ℕ, ◌≡◌, ◌≢◌, refl, true, false, List, ◌∷◌, Option, none,
  some, ◌≤◌, inl, inr, ◌⊎◌,
}
use icecast_server.Auth.{
  busy, handle, add_client, AuthResult, undefined, auth_ok, failed, released, forbidden, no_match,
  user_added, user_exists, user_deleted, Auth, AuthClient, Answer, result, allows_method,
  new_client, ask_backend, grant, after_result,
}

-- The authenticator lets the client go on to the next one.
abbrev pub Passes : ℕ → Auth → Type 0
Passes req_type a =
    (a.pending_count ≤ 100)
    × ((allows_method req_type a ≡ false) ⊎ ((a.connected ≡ true) × (a.answer ≡ some no_match)))

-- The authenticator takes the client and accepts it.
abbrev pub Accepts : ℕ → Auth → Type 0
Accepts req_type a =
    (a.pending_count ≤ 100)
    × (allows_method req_type a ≡ true)
    × (a.connected ≡ true)
    × (a.answer ≡ some auth_ok)

-- It is the first of the stack that does not let the client go on, and it accepts the client.
abbrev pub Granting : ℕ → Auth → List Auth → Type 0
Granting req_type a [] = ⊥
Granting req_type a (b ∷ rest) =
    ((a ≡ b) × Accepts req_type b) ⊎ (Passes req_type b × Granting req_type a rest)

pub record Verdict (req_type : ℕ) (stack : List Auth) (c : AuthClient) (o : AuthClient × Answer)
    : Type 0 where
  pub granted :
      o.1 ≡ result auth_ok
      → (a : Auth) × Granting req_type a stack × (o.0.acl ≡ some a.acl) × (o.0.auth ≡ some a.id)
  pub accepted : (a : Auth) → Granting req_type a stack → o.1 ≡ result auth_ok
  pub kept : o.1 ≢ result auth_ok → o.0.acl ≡ c.acl

abbrev Next : Type 0
Next = AuthClient → AuthClient × Answer

-- The three ways after a result.
after_result-cases :
    (next : Next) (r : AuthResult) (a : Auth) (c : AuthClient)
    → ((r ≡ auth_ok) × (after_result next r (grant r a c) ≡ (grant auth_ok a c, result auth_ok)))
      ⊎ ((r ≡ no_match) × (after_result next r (grant r a c) ≡ next c))
      ⊎ ((r ≢ auth_ok) × (r ≢ no_match) × (after_result next r (grant r a c) ≡ (c, result r)))
unfolding after_result grant
after_result-cases next auth_ok a c = inl (refl, refl)
after_result-cases next no_match a c = inr (inl (refl, refl))
after_result-cases next undefined a c = inr (inr (λ e. cc, λ e. cc, refl))
after_result-cases next failed a c = inr (inr (λ e. cc, λ e. cc, refl))
after_result-cases next released a c = inr (inr (λ e. cc, λ e. cc, refl))
after_result-cases next forbidden a c = inr (inr (λ e. cc, λ e. cc, refl))
after_result-cases next user_added a c = inr (inr (λ e. cc, λ e. cc, refl))
after_result-cases next user_exists a c = inr (inr (λ e. cc, λ e. cc, refl))
after_result-cases next user_deleted a c = inr (inr (λ e. cc, λ e. cc, refl))

ask_backend-facts :
    (answer : Option AuthResult) (c : AuthClient) (r : AuthResult)
    → ((ask_backend answer c).0.acl ≡ c.acl)
      × ((ask_backend answer c).1 ≡ r → r ≢ failed → answer ≡ some r)
      × (answer ≡ some r → (ask_backend answer c).1 ≡ r)
      × (answer ≡ some auth_ok → (ask_backend answer c).0 ≡ c)
unfolding ask_backend
ask_backend-facts none c r = (refl, λ e n. absurd (n (sym e)), λ e. cc, λ e. cc)
ask_backend-facts (some auth_ok) c r = (refl, λ e n. cc, λ e. cc, λ e. refl)
ask_backend-facts (some no_match) c r = (refl, λ e n. cc, λ e. cc, λ e. cc)
ask_backend-facts (some undefined) c r = (refl, λ e n. cc, λ e. cc, λ e. cc)
ask_backend-facts (some failed) c r = (refl, λ e n. cc, λ e. cc, λ e. cc)
ask_backend-facts (some released) c r = (refl, λ e n. cc, λ e. cc, λ e. cc)
ask_backend-facts (some forbidden) c r = (refl, λ e n. cc, λ e. cc, λ e. cc)
ask_backend-facts (some user_added) c r = (refl, λ e n. cc, λ e. cc, λ e. cc)
ask_backend-facts (some user_exists) c r = (refl, λ e n. cc, λ e. cc, λ e. cc)
ask_backend-facts (some user_deleted) c r = (refl, λ e n. cc, λ e. cc, λ e. cc)

record Asked (a : Auth) (c : AuthClient) (r : AuthResult) : Type 0 where
  same_acl : (new_client a c).0.acl ≡ c.acl
  came_from : (new_client a c).1 ≡ r → r ≢ failed → (a.connected ≡ true) × (a.answer ≡ some r)
  leads_to : a.connected ≡ true → a.answer ≡ some r → (new_client a c).1 ≡ r
  ok_same : (new_client a c).1 ≡ auth_ok → (new_client a c).0 ≡ c

new_client-Asked : (a : Auth) (c : AuthClient) (r : AuthResult) → Asked a c r
unfolding new_client
new_client-Asked a c r = elim (Bool-cases a.connected) [
  | inl e ↦
      let f = ask_backend-facts a.answer c r in
      let g = ask_backend-facts a.answer c auth_ok in
      record {
        same_acl = simp e (f.0);
        came_from = λ h n. (e, f.1 (simp e at h) n);
        leads_to = λ h k. simp e (f.2 k);
        ok_same = λ h. simp e (f.3 (g.1 (simp e at h) (λ q. cc)));
      }
  | inr e ↦ record {
    same_acl = simp e refl;
    came_from = λ h n. let is_failed : failed ≡ r = simp e at h in absurd (n (sym is_failed));
    leads_to = λ h k. absurd (cc (e, h));
    ok_same = λ h. let is_failed : failed ≡ auth_ok = simp e at h in absurd (cc is_failed);
  }
]

abbrev after_auth : Auth → AuthClient → AuthClient
after_auth a c = record c { auth = some a.id }

Passes-not : (m : ℕ) (a : Auth) → Passes m a → Accepts m a → ⊥
Passes-not m a (few, inl off) (_, on, _, _) = cc
Passes-not m a (few, inr (up, ans)) (_, on, _, ok) =
    let same_answer : some no_match ≡ some auth_ok = sym ans ∙ ok in cc

-- An element that lets the client go on.
passing :
    (m : ℕ) (a : Auth) (rest : List Auth) (c c' : AuthClient) (o : AuthClient × Answer)
    → Passes m a
    → c'.acl ≡ c.acl
    → Verdict m rest c' o
    → Verdict m (a ∷ rest) c o
passing m a rest c c' o p same v = record {
  granted = λ h. let (b, g, acl, auth) = v.granted h in (b, inr (p, g), acl, auth);
  accepted = λ b g. elim g [ inl h ↦ absurd (Passes-not m a p h.1) | inr h ↦ v.accepted b h.1 ];
  kept = λ h. v.kept h ∙ same;
}

-- An element where the client stays, without being accepted.
stopping :
    (m : ℕ) (a : Auth) (rest : List Auth) (c : AuthClient) (o : AuthClient × Answer)
    → ¬ Passes m a
    → ¬ Accepts m a
    → o.1 ≢ result auth_ok
    → o.0.acl ≡ c.acl
    → Verdict m (a ∷ rest) c o
stopping m a rest c o np na bad same = record {
  granted = λ h. absurd (bad h);
  accepted = λ b g. elim g [ inl h ↦ absurd (na h.1) | inr h ↦ absurd (np h.0) ];
  kept = λ h. same;
}

-- An element that accepts.
accepting :
    (m : ℕ) (a : Auth) (rest : List Auth) (c : AuthClient) (o : AuthClient × Answer)
    → Accepts m a
    → o.1 ≡ result auth_ok
    → o.0.acl ≡ some a.acl
    → o.0.auth ≡ some a.id
    → Verdict m (a ∷ rest) c o
accepting m a rest c o ok good acl auth = record {
  granted = λ h. (a, inl (refl, ok), acl, auth);
  accepted = λ b g. good;
  kept = λ h. absurd (h good);
}

handle-Verdict :
    (next : Next) (m : ℕ) (a : Auth) (rest : List Auth) (c : AuthClient)
    → a.pending_count ≤ 100
    → allows_method m a ≡ true
    → ((d : AuthClient) → Verdict m rest d (next d))
    → Verdict m (a ∷ rest) c (handle next a c)
unfolding handle
handle-Verdict next m a rest c few on ih =
    let d = after_auth a c in
    let r = (new_client a d).1 in
    let c' = (new_client a d).0 in
    let ok = new_client-Asked a d auth_ok in
    let no = new_client-Asked a d no_match in
    elim (after_result-cases next r a c') [
      | inl (e, out) ↦
          let from = ok.came_from e (λ q. cc) in
          simp out (
            accepting m a rest c (grant auth_ok a c', result auth_ok) (few, on, from.0, from.1) refl
              (unfold grant in refl)
              (unfold grant in ap (λ (x : AuthClient). x.auth) (ok.ok_same e)))
      | inr (inl (e, out)) ↦
          let from = no.came_from e (λ q. cc) in
          simp out (passing m a rest c c' (next c') (few, inr (from.0, from.1)) no.same_acl (ih c'))
      | inr (inr (not_ok, no_more, out)) ↦
          let stays : ¬ Passes m a =
            λ p. elim p.1 [ inl off ↦ cc | inr (up, ans) ↦ no_more (no.leads_to up ans) ] in
          let rejects : ¬ Accepts m a = λ q. not_ok (ok.leads_to q.2 q.3) in
          let bad : result r ≢ result auth_ok = λ q. not_ok (result_injective r auth_ok q) in
          simp out (stopping m a rest c (c', result r) stays rejects bad ok.same_acl)
    ]
  where
    result_injective : (x y : AuthResult) → result x ≡ result y → x ≡ y
    result_injective x y q = cc

-- A client's way through a stack ends with AUTH_OK exactly if the first authenticator that does not
-- let it go on accepts it: its queue is not too long, its filter has the request's method, the client
-- is still connected, and the backend answers AUTH_OK. Then the client has the ACL of that
-- authenticator and refers to it. On any other end its ACL is as it was.
pub add_client-Verdict :
    (m : ℕ) (stack : List Auth) (c : AuthClient) → Verdict m stack c (add_client m stack c)
unfolding add_client
add_client-Verdict m [] c = record {
  granted = λ h. absurd (cc);
  accepted = λ a h. absurd h;
  kept = λ h. refl;
}
add_client-Verdict m (a ∷ rest) c = elim (Bool-cases (ltb 100 a.pending_count)) [
  | inl e ↦
      let many : ¬ (a.pending_count ≤ 100) = λ q. ground (arith, e, q) in
      simp e (stopping m a rest c (c, busy) (λ p. many p.0) (λ q. many q.0) (λ q. cc) refl)
  | inr e ↦
      let few : a.pending_count ≤ 100 = ground (arith, e) in
      elim (Bool-cases (allows_method m a)) [
        | inl on ↦
            simp (e, on)
              (handle-Verdict (add_client m rest) m a rest c few on (add_client-Verdict m rest))
        | inr off ↦
            simp (e, off)
              (passing m a rest c c (add_client m rest c) (few, inl off) refl
                (add_client-Verdict m rest c))
      ]
]
