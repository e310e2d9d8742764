-- ===== src/Ebml/Reads.antt =====
-- What is read out of the parser.
use icecast_server.Prelude.{
  take-drop, drop-drop, starts_with, append_assoc, take, length-drop, length, drop, Bytes, ◌+◌, ◌-◌,
  ◌≤◌, ◌<◌, ◌≡◌, sym, ap, ◌∙◌, inl, inr, Bool, true, false, Option, some, ◌++◌, arith, ℕ,
}
use icecast_server.Ebml.State.{ReadMode, reading_header, reading_clusters, Ebml, cluster_magic}
use icecast_server.Ebml.InOrder.{
  View, view, in_header, HeaderFits, ReaderFits, Shown, ClusterAt, StartFits, InOrder,
}

abbrev is_reading : ReadMode → Bool
is_reading reading_header = true
is_reading reading_clusters = false

-- In the clusters the header is whole.
pub past_header :
    (v : View) (sent : Bytes)
    → HeaderFits v sent
    → 0 < v.header_size
    → (v.header_size ≡ length v.header) × (in_header v.parse_state ≡ false)
past_header v sent (inl b) h = let none_yet = b.no_size in absurd (omega (arith, none_yet, h))
past_header v sent (inr e) h = e

pub size_in_clusters :
    (v : View) → v.output_state ≡ reading_clusters → ReaderFits v → 0 < v.header_size
size_in_clusters v e (inl (reading, rest)) = absurd (cc (e, reading))
size_in_clusters v e (inr (reading, size)) = size

module _ (captured : Option Bytes) (came sent : Bytes) (s : Ebml)
    (i : InOrder captured came sent (view s) s.input_buffer) where
  -- Bytes leave the buffer in the clusters.
  module _ (clusters : s.output_state ≡ reading_clusters) where
    size : 0 < s.header_size
    size = size_in_clusters (view s) clusters i.reader

    abbrev pub without : ℕ → Option ℕ → Ebml
    without n o = record s { buffer = drop n s.buffer; cluster_start = o }

    pub without-InOrder :
        (n : ℕ) (o : Option ℕ)
        → StartFits o (view (without n o)) s.input_buffer
        → InOrder captured came (sent ++ take n s.buffer) (view (without n o)) s.input_buffer
    without-InOrder n o f = record {
      order = order;
      bytes = i.bytes;
      state = i.state;
      header = inr (past_header (view s) sent i.header size);
      kept = i.kept;
      reader = inr (clusters, size);
      start = f;
      buffer_within =
          rw (length-drop n s.buffer) (let within = i.buffer_within in omega (arith, within));
      header_within = i.header_within;
    }
      where
        order :
            s.header ++ ((sent ++ take n s.buffer) ++ (drop n s.buffer ++ s.input_buffer)) ≡ came
        order =
            ap (λ (x : Bytes). s.header ++ x)
              (append_assoc sent (take n s.buffer) (drop n s.buffer ++ s.input_buffer)
                ∙ ap (λ (x : Bytes). sent ++ x)
                    (sym (append_assoc (take n s.buffer) (drop n s.buffer) s.input_buffer)
                      ∙ ap (λ (x : Bytes). x ++ s.input_buffer) (take-drop n s.buffer)))
            ∙ i.order

    -- What stands before a cluster.
    pub StartFits-without :
        (n start : ℕ)
        → n ≤ start
        → ClusterAt start (view s) s.input_buffer
        → ClusterAt (start - n) (view (without n (some (start - n)))) s.input_buffer
    StartFits-without n start l c = record {
      within = rw (length-drop n s.buffer) (let within = c.within in omega (arith, within));
      magic =
          ap (λ (x : Bytes). starts_with cluster_magic (x ++ s.input_buffer))
            (drop-drop n (start - n) s.buffer ∙ ap (λ (k : ℕ). drop k s.buffer) sum)
          ∙ c.magic;
      shown = shown c.shown;
    }
      where
        sum : n + (start - n) ≡ start
        sum = omega (arith, l)

        shown : Shown start (view s) → Shown (start - n) (view (without n (some (start - n))))
        shown (inl there) = inl (rw (length-drop n s.buffer) (omega (arith, l, there)))
        shown (inr (copying, flush, room)) =
            let within = c.within in
            inr (copying, flush, rw (length-drop n s.buffer) (omega (arith, l, room, within)))
