-- ===== src/Relays/Searched.antt =====
-- The search for a relay to keep.
use icecast_server.Prelude.{
  subst, ==_iff, str_eq_iff, str_eq, Bytes, All, ◌+◌, ◌≡◌, refl, sym, ap, ◌∙◌, inl, inr, Bool, true,
  false, ◌&&◌, Option, none, some, List, [], ◌∷◌, arith, ◌==◌, if◌then◌else◌, Bool-cases, ℕ,
}
use icecast_server.Relays.{Relay, is_unchanged, adopt, is_kept, put_back, take_existing}

-- What the configuration says of a relay, but for who logs in.
pub record Configured : Type 0 where
  pub localmount : Bytes
  pub mount : Bytes
  pub server : Bytes
  pub port : ℕ
  pub mp3metadata : ℕ
  pub on_demand : ℕ

abbrev pub configured : Relay → Configured
configured r = record {
  localmount = r.localmount;
  mount = r.mount;
  server = r.server;
  port = r.port;
  mp3metadata = r.mp3metadata;
  on_demand = r.on_demand;
}

abbrev pub reverse_onto : List Relay → List Configured → List Configured
reverse_onto [] acc = acc
reverse_onto (r ∷ rs) acc = reverse_onto rs (configured r ∷ acc)

-- How many relays of a list have this source.
abbrev pub counts : ℕ → Option ℕ → ℕ
counts id none = 0
counts id (some j) = if j == id then 1 else 0

abbrev pub holders : ℕ → List Relay → ℕ
holders id [] = 0
holders id (r ∷ rs) = counts id r.source + holders id rs

-- No relay of a list is for the mount.
abbrev pub WithoutMount : Bytes → List Relay → Type 0
WithoutMount mount rs = All (λ (r : Relay). str_eq mount r.localmount ≡ false) rs

-- Each relay has a mount of its own.
abbrev pub Apart : List Relay → Type 0
Apart [] = Unit
Apart (r ∷ rs) = WithoutMount r.localmount rs × Apart rs

-- The search would keep no relay of a list.
abbrev pub NotKept : Relay → List Relay → Type 0
NotKept u rs = All (λ (r : Relay). is_kept u r ≡ false) rs

and-true : (a b : Bool) → (a && b) ≡ true → (a ≡ true) × (b ≡ true)
and-true true b h = (refl, h)
and-true false b h = absurd (cc h)

adopt-configured : (u r : Relay) → is_kept u r ≡ true → configured (adopt u r) ≡ configured u
unfolding is_kept is_unchanged adopt
adopt-configured u r h =
    let (local, rest) = and-true (str_eq u.localmount r.localmount) _ h in
    let (three, meta) = and-true _ (u.mp3metadata == r.mp3metadata) rest in
    let (two, port) = and-true _ (u.port == r.port) three in
    let (mount, server) = and-true (str_eq u.mount r.mount) (str_eq u.server r.server) two in
    let p = ((str_eq_iff u.localmount r.localmount).0) local in
    let q = ((str_eq_iff u.mount r.mount).0) mount in
    let t = ((str_eq_iff u.server r.server).0) server in
    let n = ((==_iff u.port r.port).0) port in
    let k = ((==_iff u.mp3metadata r.mp3metadata).0) meta in
    λ i. record {
      localmount = sym p i;
      mount = sym q i;
      server = sym t i;
      port = sym n i;
      mp3metadata = sym k i;
      on_demand = u.on_demand;
    }

-- What the search for a relay to keep does.
pub record Found (u : Relay) (current : List Relay) (e : Relay) (rest : List Relay) : Type 0 where
  pub same : configured e ≡ configured u
  pub held : (id : ℕ) → holders id current ≡ counts id e.source + holders id rest
  pub without : (mount : Bytes) → WithoutMount mount current → WithoutMount mount rest
  pub not_kept : (v : Relay) → NotKept v current → NotKept v rest
  pub apart : Apart current → Apart rest × NotKept u rest

-- Or there is none.
abbrev pub Search : Relay → List Relay → Option (Relay × List Relay) → Type 0
Search u current none = NotKept u current
Search u current (some (e, rest)) = Found u current e rest

local_of : (u r : Relay) → is_kept u r ≡ true → u.localmount ≡ r.localmount
unfolding is_kept
local_of u r h =
    ((str_eq_iff u.localmount r.localmount).0) ((and-true (str_eq u.localmount r.localmount) _ h).0)

-- A relay for another mount is not kept.
not_local : (u r : Relay) → str_eq u.localmount r.localmount ≡ false → is_kept u r ≡ false
unfolding is_kept
not_local u r h = rw h refl

without-NotKept :
    (u : Relay) (mount : Bytes) (rs : List Relay)
    → u.localmount ≡ mount
    → WithoutMount mount rs
    → NotKept u rs
without-NotKept u mount [] e h = tt
without-NotKept u mount (r ∷ rs) e (n, h) = (
  not_local u r (ap (λ (x : Bytes). str_eq x r.localmount) e ∙ n),
  without-NotKept u mount rs e h,
)

keeps_head : (u r : Relay) (rs : List Relay) → is_kept u r ≡ true → Found u (r ∷ rs) (adopt u r) rs
keeps_head u r rs h = record {
  same = adopt-configured u r h;
  held = λ id. unfold adopt in refl;
  without = λ mount w. w.1;
  not_kept = λ v w. w.1;
  apart = λ (w, a). (a, without-NotKept u r.localmount rs (local_of u r h) w);
}

keeps_later :
    (u r e : Relay) (rs rest : List Relay)
    → is_kept u r ≡ false
    → Found u rs e rest
    → Found u (r ∷ rs) e (r ∷ rest)
keeps_later u r e rs rest h f = record {
  same = f.same;
  held = λ id. let held = f.held id in omega (arith, held);
  without = λ mount w. (w.0, f.without mount w.1);
  not_kept = λ v w. (w.0, f.not_kept v w.1);
  apart = λ (w, a). let (a', k) = f.apart a in ((f.without r.localmount w, a'), (h, k));
}

looks_further :
    (u r : Relay) (rs : List Relay) (o : Option (Relay × List Relay))
    → is_kept u r ≡ false
    → Search u rs o
    → Search u (r ∷ rs) (put_back r o)
looks_further u r rs none h k = (h, k)
looks_further u r rs (some (e, rest)) h k = keeps_later u r e rs rest h k

pub take_existing-Search :
    (u : Relay) (current : List Relay) → Search u current (take_existing u current)
unfolding take_existing
take_existing-Search u [] = tt
take_existing-Search u (r ∷ rs) = elim (Bool-cases (is_kept u r)) [
  | inl h ↦
      subst
        (λ (b : Bool).
          Search u (r ∷ rs) (if b then some (adopt u r, rs) else put_back r (take_existing u rs)))
        (sym h) (keeps_head u r rs h)
  | inr h ↦
      subst
        (λ (b : Bool).
          Search u (r ∷ rs) (if b then some (adopt u r, rs) else put_back r (take_existing u rs)))
        (sym h) (looks_further u r rs (take_existing u rs) h (take_existing-Search u rs))
]
