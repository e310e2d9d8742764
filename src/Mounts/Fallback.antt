-- ===== src/Mounts/Fallback.antt =====
-- `source_find_mount` of src/source.c and the chains of configured fallbacks.
use icecast_server.Prelude.{
  ℕ, zero, suc, ◌<◌, List, Option, none, some, Bytes, Bool, true, false, Bool-cases, ◌≡◌, refl, inl,
  inr, ◌↔◌, arith,
}
use icecast_server.Mounts.{
  follow, Entry, SourceTree, MountProxy, find_mount_raw, config_find_mount, is_active,
  find_in_rounds, max_fallback_depth, find_mount,
}

module _ (fnmatch : Bytes → Bytes → Bool) (t : SourceTree) (ms : List MountProxy) where
  -- From a mount the chain of fallbacks reaches this active source after so many steps, and passes no
  -- active one before.
  pub data Route (s : Entry) : ℕ → Bytes → Type 0 where
    arrived :
        {m : Bytes} {k : ℕ}
        → k ≡ 0
        → find_mount_raw t (some m) ≡ some s
        → is_active (some s) ≡ true
        → Route s k m
    falls_back :
        {m m' : Bytes} {p : MountProxy} {k k' : ℕ}
        → is_active (find_mount_raw t (some m)) ≡ false
        → config_find_mount fnmatch (some m) ms ≡ some p
        → p.fallback_mount ≡ some m'
        → k' ≡ suc k
        → Route s k m'
        → Route s k' m

  abbrev rounds_of : ℕ → Option Bytes → Option Entry
  rounds_of n = find_in_rounds fnmatch n t ms

  none_runs : (n : ℕ) {s : Entry} → rounds_of n none ≡ some s → ⊥
  unfolding find_in_rounds
  none_runs zero h = cc
  none_runs (suc n) h = cc

  find_in_rounds-Route :
      (rounds : ℕ) (m : Bytes) (s : Entry)
      → rounds_of rounds (some m) ≡ some s
      → (k : ℕ) × (k < rounds) × Route s k m
  unfolding find_in_rounds
  find_in_rounds-Route zero m s h = absurd (cc)
  find_in_rounds-Route (suc rounds) m s h =
      elim (Bool-cases (is_active (find_mount_raw t (some m)))) [
        | inl e ↦
            let found : find_mount_raw t (some m) ≡ some s = rw e at h in
            (0, omega arith, arrived refl found (rw found at e))
        | inr e ↦
            followed (config_find_mount fnmatch (some m) ms) refl (find_in_rounds-Route rounds) e
              (rw e at h)
      ]
    where
      followed :
          (c : Option MountProxy)
          → config_find_mount fnmatch (some m) ms ≡ c
          → ((m' : Bytes) (s' : Entry)
              → rounds_of rounds (some m') ≡ some s'
              → (k : ℕ) × (k < rounds) × Route s' k m')
          → is_active (find_mount_raw t (some m)) ≡ false
          → follow (rounds_of rounds) c ≡ some s
          → (k : ℕ) × (k < suc rounds) × Route s k m
      followed none e ih i g = absurd (unfold follow in cc)
      followed (some p) e ih i g = stepped p.fallback_mount refl (unfold follow in g)
        where
          stepped :
              (f : Option Bytes)
              → p.fallback_mount ≡ f
              → rounds_of rounds f ≡ some s
              → (k : ℕ) × (k < suc rounds) × Route s k m
          stepped none y q = absurd (none_runs rounds q)
          stepped (some m') y q =
              let (k, l, r) = ih m' s q in (suc k, omega arith, falls_back i e y refl r)

  Route-found :
      {k : ℕ} {m : Bytes} (rounds : ℕ) (s : Entry)
      → Route s k m
      → k < rounds
      → rounds_of rounds (some m) ≡ some s
  unfolding find_in_rounds
  Route-found zero s r l = absurd (omega arith)
  Route-found (suc rounds) s (arrived z f a) l = rw (f, a)
  Route-found (suc rounds) s (falls_back i e y z r) l =
      rw (i, e, follow, y) (Route-found rounds s r (omega arith))

  -- `source_find_mount` returns a source exactly if the chain of fallbacks from the mount reaches it,
  -- as its first active source, in fewer than `max_fallback_depth` steps. So it ends on a chain that
  -- loops.
  pub find_mount-Route :
      (m : Bytes) (s : Entry)
      → (find_mount fnmatch t ms (some m) ≡ some s)
        ↔ ((k : ℕ) × (k < max_fallback_depth) × Route s k m)
  unfolding find_mount
  find_mount-Route m s = (
    find_in_rounds-Route max_fallback_depth m s,
    λ (k, l, r). Route-found max_fallback_depth s r l,
  )
