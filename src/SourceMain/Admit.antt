-- ===== src/SourceMain/Admit.antt =====
-- Lemmas on `admit_clients`: the pending clients of a source, in the loop of `source_main`.
use icecast_server.Prelude.{
  subst, ℕ, ◌+◌, ◌%◌, ◌≤◌, ◌<◌, List, [], ◌∷◌, ◌++◌, ◌≡◌, refl, sym, ◌∙◌, arith, Option, none, some,
  length, length-append, false, Bool-cases, inl, inr,
}
use icecast_server.Stream.{Queue, Stream}
use icecast_server.Stream.Counts.{ids}
use icecast_server.Stream.Invariant.{IsStream}
use icecast_server.Stream.References.{IsStream-ext}
use icecast_server.Listener.{Client, release_ref}
use icecast_server.Listener.Keeps.{
  with_ref, with_ref_comm, Fits, with_queue, release_ref-IsStream, ids-release_ref,
}
use icecast_server.SourceMain.Serve.{refs_with, with_ref-ext, refs_with-with_ref, AllFit}
use icecast_server.SourceMain.{TreeInsert, u64, is_full, Admitting, admit_clients}

pub refs_with-ext :
    (f g : ℕ → ℕ) (cs : List Client)
    → ((x : ℕ) → f x ≡ g x)
    → (x : ℕ) → refs_with f cs x ≡ refs_with g cs x
refs_with-ext f g [] e x = e x
refs_with-ext f g (c ∷ cs) e x = with_ref-ext c.refbuf _ _ (refs_with-ext f g cs e) x

refs_with-middle :
    (base : ℕ → ℕ) (c : Client) (xs ys : List Client) (x : ℕ)
    → refs_with base (xs ++ c ∷ ys) x ≡ with_ref c.refbuf (refs_with base (xs ++ ys)) x
refs_with-middle base c [] ys x = refl
refs_with-middle base c (d ∷ xs) ys x =
    with_ref-ext d.refbuf _ _ (refs_with-middle base c xs ys) x
    ∙ with_ref_comm (refs_with base (xs ++ ys)) d.refbuf c.refbuf x

AllFit-middle :
    (c : Client) (xs ys : List Client)
    → Fits c.check_buffer c.refbuf
    → AllFit (xs ++ ys)
    → AllFit (xs ++ c ∷ ys)
AllFit-middle c [] ys f h = (f, h)
AllFit-middle c (d ∷ xs) ys f h = (h.0, AllFit-middle c xs ys f h.1)

-- What an insertion does to what is known of a tree.
placed :
    (base : ℕ → ℕ) (c : Client) (tree tree' xs ys : List Client)
    → tree ≡ xs ++ ys
    → tree' ≡ xs ++ c ∷ ys
    → ((x : ℕ) → refs_with base tree' x ≡ with_ref c.refbuf (refs_with base tree) x)
      × (length tree' ≡ length tree + 1)
      × (Fits c.check_buffer c.refbuf → AllFit tree → AllFit tree')
placed base c tree tree' xs ys e e' =
    rw (e, e')
      (
        refs_with-middle base c xs ys,
        omega (arith, length-append xs ys, length-append xs (c ∷ ys)),
        AllFit-middle c xs ys,
      )

module _ (t : TreeInsert) (c : Client) (tree : List Client) where
  pub insert-placed :
      (base : ℕ → ℕ)
      → ((x : ℕ) → refs_with base (t.insert c tree) x ≡ with_ref c.refbuf (refs_with base tree) x)
        × (length (t.insert c tree) ≡ length tree + 1)
        × (Fits c.check_buffer c.refbuf → AllFit tree → AllFit (t.insert c tree))
  insert-placed base =
      let (xs, ys, e, e') = t.insert_lem c tree in placed base c tree (t.insert c tree) xs ys e e'

-- `max_listeners` holds of a number of clients.
abbrev pub Within : Option ℕ → ℕ → Type 0
Within none n = Unit
Within (some m) n = (n ≤ m) × (m < u64)

pub record AdmitInv (base : ℕ → ℕ) (max : Option ℕ) (s : Stream) (q : Queue) (r : Admitting)
    : Type 0 where
  pub stream : IsStream (refs_with base r.tree) (with_queue s r.queue)
  pub same_ids : ids r.queue ≡ ids q
  pub fits : AllFit r.tree
  pub counted : r.count ≡ length r.tree % u64
  pub within : Within max (length r.tree)

admitted_within :
    (max : Option ℕ) (n k : ℕ)
    → Within max k
    → n ≡ k % u64
    → is_full max n ≡ false
    → Within max (k + 1)
unfolding is_full
admitted_within none n k w e h = tt
admitted_within (some m) n k w e h = ground arith

pub admit_clients-AdmitInv :
    (pending : List Client) (t : TreeInsert) (max : Option ℕ) (base : ℕ → ℕ) (s : Stream)
    (tree : List Client) (q : Queue) (n : ℕ)
    → IsStream (refs_with (refs_with base tree) pending) (with_queue s q)
    → AllFit pending
    → AllFit tree
    → n ≡ length tree % u64
    → Within max (length tree)
    → AdmitInv base max s q (admit_clients t max pending tree q n)
unfolding admit_clients
admit_clients-AdmitInv [] t max base s tree q n v p f e w = record {
  stream = v;
  same_ids = refl;
  fits = f;
  counted = e;
  within = w;
}
admit_clients-AdmitInv (c ∷ cs) t max base s tree q n v p f e w =
    elim (Bool-cases (is_full max n)) [
      | inl full ↦
          let r =
            admit_clients-AdmitInv cs t max base s tree (release_ref c.refbuf q) n
              (release_ref-IsStream (refs_with (refs_with base tree) cs) c.refbuf (with_queue s q)
                v)
              p.1 f e w in
          simp full (record {
            stream = r.stream;
            same_ids = r.same_ids ∙ ids-release_ref c.refbuf q;
            fits = r.fits;
            counted = r.counted;
            within = r.within;
          })
      | inr room ↦
          let (refs, len, fit) = insert-placed t c tree base in
          simp room (
            admit_clients-AdmitInv cs t max base s (t.insert c tree) q ((n + 1) % u64)
              (IsStream-ext
                (λ x.
                  refs_with-with_ref (refs_with base tree) c.refbuf cs x
                  ∙ sym (refs_with-ext _ _ cs refs x))
                v)
              p.1 (fit p.0 f) (omega (arith, len))
              (subst (Within max) (sym len) (admitted_within max n (length tree) w e room)))
    ]
