-- ===== src/Stream/References.antt =====
-- Well-formedness of the queue with one reference more or less.
use icecast_server.Prelude.{
  ℕ, ◌<◌, ◌≡◌, arith, ◌==◌, inl, inr, ap, sym, subst, Bool-cases, ==_iff, ◌%◌, ◌∙◌, refl, [], ◌∷◌,
  ◌⊎◌,
}
use icecast_server.Stream.Counts.{
  Holds, plus_at, Counted-ext, addref-Counted, release-Counted, recount-Ascending, recount-Below,
  recount-Holds, total-recount, total_from-recount,
}
use icecast_server.Stream.Invariant.{IsStream}
use icecast_server.Stream.{Queue, Stream, recount, addref, release, u32}

pub IsStream-ext :
    {refs refs' : ℕ → ℕ} {s : Stream}
    → ((x : ℕ) → refs x ≡ refs' x)
    → IsStream refs s
    → IsStream refs' s
IsStream-ext {refs} {refs'} {s} e v = record {
  ascending = v.ascending;
  below = v.below;
  counted = Counted-ext s.stream_data s.burst_point 0 refs refs' (λ x _. e x) v.ascending v.counted;
  point_in = v.point_in;
  size = v.size;
  offset = v.offset;
  live = λ p h. v.live p (omega (arith, e p));
}

recount-nil : (f : ℕ → ℕ) (p : ℕ) (q : Queue) → q ≡ [] → recount f p q ≡ []
unfolding recount
recount-nil f p [] e = refl
recount-nil f p (b ∷ q) e = absurd (cc)

recount-point_in :
    (f : ℕ → ℕ) (p x : ℕ) (q : Queue)
    → (q ≡ []) ⊎ Holds x q
    → (recount f p q ≡ []) ⊎ Holds x (recount f p q)
recount-point_in f p x q (inl e) = inl (recount-nil f p q e)
recount-point_in f p x q (inr h) = inr (recount-Holds f p q x h)

module _ (refs : ℕ → ℕ) (p : ℕ) (s : Stream) where
  pub addref-IsStream :
      Holds p s.stream_data
      → IsStream refs s
      → IsStream (plus_at p refs) (record s { stream_data = addref p s.stream_data })
  unfolding addref
  addref-IsStream h v = record {
    ascending = recount-Ascending _ p s.stream_data 0 v.ascending;
    below = recount-Below _ p s.stream_data s.next_id v.below;
    counted = addref-Counted s.stream_data s.burst_point 0 p refs v.ascending v.counted;
    point_in = recount-point_in _ p s.burst_point s.stream_data v.point_in;
    size = v.size ∙ ap (λ t. t % u32) (sym (total-recount _ p s.stream_data));
    offset =
        v.offset ∙ ap (λ t. t % u32) (sym (total_from-recount _ p s.stream_data s.burst_point));
    live = λ x k. recount-Holds _ p s.stream_data x (found x k);
  }
    where
      found : (x : ℕ) → 0 < plus_at p refs x → Holds x s.stream_data
      found x k = elim (Bool-cases (x == p)) [
        | inl e ↦ subst (λ y. Holds y s.stream_data) (sym ((==_iff x p).0 e)) h
        | inr e ↦ v.live x (ground arith)
      ]

  pub release-IsStream :
      IsStream (plus_at p refs) s
      → IsStream refs (record s { stream_data = release p s.stream_data })
  unfolding release
  release-IsStream v = record {
    ascending = recount-Ascending _ p s.stream_data 0 v.ascending;
    below = recount-Below _ p s.stream_data s.next_id v.below;
    counted = release-Counted s.stream_data s.burst_point 0 p refs v.ascending v.counted;
    point_in = recount-point_in _ p s.burst_point s.stream_data v.point_in;
    size = v.size ∙ ap (λ t. t % u32) (sym (total-recount _ p s.stream_data));
    offset =
        v.offset ∙ ap (λ t. t % u32) (sym (total_from-recount _ p s.stream_data s.burst_point));
    live = λ x k. recount-Holds _ p s.stream_data x (v.live x (ground arith));
  }
