-- ===== src/Ebml/Available.antt =====
-- The reads of a parser in either mode.
use icecast_server.Prelude.{
  take-all, ==_iff, subst, length, by_test, Bytes, zero, suc, ◌+◌, ◌-◌, ◌≤◌, ◌<◌, ◌≡◌, refl, sym,
  ap, ◌∙◌, ◌⊎◌, inl, inr, Bool, true, Option, none, some, arith, ◌==◌, if◌then◌else◌, Bool-cases, ℕ,
}
use icecast_server.Ebml.State.{ReadMode, reading_header, reading_clusters, Ebml, slice_size}
use icecast_server.Ebml.Parser.{at_most}
use icecast_server.Ebml.Output.{
  flush_if_full, what_we_have, cluster_space, space_in, read_space, Chunk, read_header_chunk,
  read_cluster, read_in, ebml_read, read_some, read_available,
}
use icecast_server.Ebml.InOrder.{View, view, HeaderFits, ReaderFits, StartFits, InOrder}
use icecast_server.Ebml.Reads.{past_header}
use icecast_server.Ebml.Taken.{TookHeader, TookData, Reads, read_cluster-TookData}

-- A read of the header leaves the clusters alone.
StartFits-read :
    (o : Option ℕ) (v : View) (mode : ReadMode) (position : ℕ) (todo : Bytes)
    → StartFits o v todo
    → StartFits o (record v { output_state = mode; header_read_position = position }) todo
StartFits-read none v mode position todo h = tt
StartFits-read (some start) v mode position todo h = record {
  within = h.within;
  magic = h.magic;
  shown = h.shown;
}

module _ (captured : Option Bytes) (came sent : Bytes) where
  read_some-Reads :
      (s : Ebml) (o : Option ℕ) (n : ℕ)
      → InOrder captured came sent (view s) s.input_buffer
      → s.output_state ≡ reading_clusters
      → s.cluster_start ≡ o
      → (o ≡ some 0 → (n ≡ 0) ⊎ ((length s.buffer ≡ n) × (s.flush_cluster ≡ true)))
      → Reads captured came sent reading_clusters s.header (read_some (s, n))
  unfolding read_some ebml_read read_in
  read_some-Reads s o zero i clusters e all = (i, clusters, refl)
  read_some-Reads s o (suc n) i clusters e all =
      let read : ebml_read s (suc n) ≡ read_cluster o s (suc n) =
        ap (λ (m : ReadMode). read_in m s (suc n)) clusters
        ∙ ap (λ (o : Option ℕ). read_cluster o s (suc n)) e in
      inr (
        refl,
        subst (λ (r : Ebml × Chunk). TookData captured came sent s.header r.0 r.1) (sym read)
            (read_cluster-TookData captured came sent s i clusters o n e (λ h. some_bytes (all h))),
      )
    where
      some_bytes :
          (suc n ≡ 0) ⊎ ((length s.buffer ≡ suc n) × (s.flush_cluster ≡ true))
          → (length s.buffer ≡ suc n) × (s.flush_cluster ≡ true)
      some_bytes (inl h) = absurd (omega (arith, h))
      some_bytes (inr h) = h

  -- A full buffer shows the cluster that begins it.
  flushed :
      (s : Ebml) (o : Option ℕ)
      → InOrder captured came sent (view s) s.input_buffer
      → length s.buffer ≡ slice_size
      → s.cluster_start ≡ o
      → (o ≡ none) ⊎ (o ≡ some 0)
      → InOrder captured came sent (view (record s { flush_cluster = true })) s.input_buffer
  flushed s o i full e which = record {
    order = i.order;
    bytes = i.bytes;
    state = i.state;
    header = header i.header;
    kept = i.kept;
    reader = i.reader;
    start =
        subst
          (λ (o : Option ℕ). StartFits o (view (record s { flush_cluster = true })) s.input_buffer)
          (sym e)
          (start o which (subst (λ (o : Option ℕ). StartFits o (view s) s.input_buffer) e i.start));
    buffer_within = i.buffer_within;
    header_within = i.header_within;
  }
    where
      header : HeaderFits (view s) sent → HeaderFits (view (record s { flush_cluster = true })) sent
      header (inl b) = inl (record {
        early = b.early;
        none_sent = b.none_sent;
        empty = b.empty;
        no_start = b.no_start;
        no_size = b.no_size;
      })
      header (inr h) = inr h

      start :
          (o : Option ℕ)
          → (o ≡ none) ⊎ (o ≡ some 0)
          → StartFits o (view s) s.input_buffer
          → StartFits o (view (record s { flush_cluster = true })) s.input_buffer
      start none w h = tt
      start (some zero) w h = record {
        within = h.within;
        magic = h.magic;
        shown = inl (omega (arith, full));
      }
      start (some (suc n)) (inl w) h = absurd (cc w)
      start (some (suc n)) (inr w) h = absurd (cc w)

  space-Reads :
      (s : Ebml) (o : Option ℕ)
      → InOrder captured came sent (view s) s.input_buffer
      → s.output_state ≡ reading_clusters
      → s.cluster_start ≡ o
      → Reads captured came sent reading_clusters s.header (read_some (s, what_we_have s))
  space-Reads s o i clusters e = elim (Bool-cases s.flush_cluster) [
    | inl f ↦
        subst
          (λ (b : Bool).
            Reads captured came sent reading_clusters s.header
              (read_some (s, if b then length s.buffer else 0)))
          (sym f) (read_some-Reads s o (length s.buffer) i clusters e (λ h. inr (refl, f)))
    | inr f ↦
        subst
          (λ (b : Bool).
            Reads captured came sent reading_clusters s.header
              (read_some (s, if b then length s.buffer else 0)))
          (sym f) (read_some-Reads s o 0 i clusters e (λ h. inl refl))
  ]

  flush-Reads :
      (s : Ebml) (o : Option ℕ)
      → InOrder captured came sent (view s) s.input_buffer
      → s.output_state ≡ reading_clusters
      → s.cluster_start ≡ o
      → (o ≡ none) ⊎ (o ≡ some 0)
      → Reads captured came sent reading_clusters s.header
          (read_some (flush_if_full s, what_we_have (flush_if_full s)))
  unfolding flush_if_full
  flush-Reads s o i clusters e which =
      by_test
        (λ (x : Ebml).
          Reads captured came sent reading_clusters s.header (read_some (x, what_we_have x)))
        (length s.buffer == slice_size) _ _
        (λ full.
          space-Reads (record s { flush_cluster = true }) o
            (flushed s o i (((==_iff (length s.buffer) slice_size).0) full) e which) clusters e)
        (λ h. space-Reads s o i clusters e)

  cluster_space-Reads :
      (s : Ebml) (o : Option ℕ)
      → InOrder captured came sent (view s) s.input_buffer
      → s.output_state ≡ reading_clusters
      → s.cluster_start ≡ o
      → Reads captured came sent reading_clusters s.header (read_some (cluster_space o s))
  unfolding cluster_space
  cluster_space-Reads s none i clusters e = flush-Reads s none i clusters e (inl refl)
  cluster_space-Reads s (some zero) i clusters e = flush-Reads s (some 0) i clusters e (inr refl)
  cluster_space-Reads s (some (suc n)) i clusters e =
      read_some-Reads s (some (suc n)) (suc n) i clusters e (λ h. absurd (cc h))

  -- The header is read whole.
  header-TookHeader :
      (s : Ebml) (n : ℕ)
      → InOrder captured came sent (view s) s.input_buffer
      → s.output_state ≡ reading_header
      → s.header_size ≡ suc n
      → (let (s', c) = read_header_chunk s (suc n) in TookHeader came sent s' c)
  unfolding read_header_chunk
  header-TookHeader s n i mode e =
      let unread = unread_of i.reader in
      let reached = all_read s.header_size s.header_read_position n e unread in
      let some_size : 0 < s.header_size = omega (arith, e) in
      let (whole, past) = past_header (view s) sent i.header some_size in
      by_test (λ (r : Ebml × Chunk). TookHeader came sent r.0 r.1) (s.header_size == 0) _ _
        (λ z. absurd (ground (arith, z, e)))
        (λ z.
          let clusters =
            ap (λ (b : Bool). if b then reading_clusters else s.output_state) reached in
          record {
            in_order = record {
              order = i.order;
              bytes = i.bytes;
              state = i.state;
              header = inr (whole, past);
              kept = (clusters, refl);
              reader = inr (clusters, some_size);
              start = StartFits-read s.cluster_start (view s) _ _ s.input_buffer i.start;
              buffer_within = i.buffer_within;
              header_within = i.header_within;
            };
            clusters = clusters;
            whole =
                take-all (at_most (s.header_size - s.header_read_position) (suc n)) s.header
                  (no_less s.header_size s.header_read_position n (length s.header) e unread whole);
          })
    where
      unread_of : ReaderFits (view s) → s.header_read_position ≡ 0
      unread_of (inl (reading, unread)) = unread
      unread_of (inr (clusters, size)) = absurd (cc (mode, clusters))

      all_read :
          (size pos n : ℕ)
          → size ≡ suc n
          → pos ≡ 0
          → (pos + at_most (size - pos) (suc n) == size) ≡ true
      all_read size pos n e u = ground (arith, e, u)

      no_less :
          (size pos n l : ℕ) → size ≡ suc n → pos ≡ 0 → size ≡ l → l ≤ at_most (size - pos) (suc n)
      no_less size pos n l e u w = ground (arith, e, u, w)

  header-Reads :
      (s : Ebml) (n : ℕ)
      → InOrder captured came sent (view s) s.input_buffer
      → s.output_state ≡ reading_header
      → s.header_size ≡ n
      → Reads captured came sent reading_header s.header (read_some (s, n))
  unfolding read_some ebml_read read_in
  header-Reads s zero i mode e = (i, mode, refl)
  header-Reads s (suc n) i mode e = inl (
    refl,
    subst (λ (r : Ebml × Chunk). TookHeader came sent r.0 r.1)
        (sym (ap (λ (m : ReadMode). read_in m s (suc n)) mode)) (header-TookHeader s n i mode e),
  )

  pub read_available-Reads :
      (s : Ebml)
      → InOrder captured came sent (view s) s.input_buffer
      → Reads captured came sent s.output_state s.header (read_available s)
  unfolding read_available read_space space_in
  read_available-Reads s i = in_mode s.output_state refl
    where
      in_mode :
          (m : ReadMode)
          → s.output_state ≡ m
          → Reads captured came sent m s.header (read_some (space_in m s))
      in_mode reading_header e = header-Reads s s.header_size i e refl
      in_mode reading_clusters e = cluster_space-Reads s s.cluster_start i e refl
