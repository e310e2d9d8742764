-- ===== src/Ebml/Streamed.antt =====
-- What `ebml_get_buffer` makes of a stream.
use icecast_server.Prelude.{
  append-nil, append_assoc, All, ap, false, List, [], ◌∷◌, subst, starts_with, Bytes, ◌≡◌, refl,
  sym, ◌∙◌, inl, inr, true, Option, none, some, ◌++◌,
}
use icecast_server.Ebml.State.{reading_header, reading_clusters, Ebml, cluster_magic}
use icecast_server.Ebml.Parser.{out_of_fuel, failed, wrote, ebml_wrote, Wrote}
use icecast_server.Ebml.Output.{
  no_bytes_wrote, no_bytes, get_buffer, after_wrote, after_read, Got, ChunkType, cluster_begins,
  cluster_continues, chunk_header, Chunk, read_available, is_sync, to_refbuf?, EbmlSource, Refbuf,
  read_data, capture, read_rounds,
}
use icecast_server.Ebml.Digits.{IsByte}
use icecast_server.Ebml.Loop.{Done, ebml_wrote-Done}
use icecast_server.Ebml.InOrder.{Captured, view, InOrder}
use icecast_server.Ebml.Taken.{Reads}
use icecast_server.Ebml.Available.{read_available-Reads}

-- The source has these bytes in order, of which these were sent, and has captured its header or not.
abbrev pub InStep : Bytes → Bytes → EbmlSource → Type 0
InStep came sent s = InOrder s.header came sent (view s.ebml) s.ebml.input_buffer

-- A sync point begins with a cluster.
abbrev pub Synced : Refbuf → Type 0
Synced r = r.sync_point ≡ true → starts_with cluster_magic r.bytes ≡ true

abbrev SourceReads : Bytes → Bytes → EbmlSource × Option Refbuf → Type 0
SourceReads came sent (s, none) = InStep came sent s
SourceReads came sent (s, some r) = InStep came (sent ++ r.bytes) s × Synced r

is_sync-begins : (t : ChunkType) → is_sync t ≡ true → t ≡ cluster_begins
is_sync-begins chunk_header h = cc h
is_sync-begins cluster_begins h = refl
is_sync-begins cluster_continues h = cc h

module _ (came sent : Bytes) where
  read_data-Reads :
      (s : EbmlSource) (header : Bytes)
      → InStep came sent s
      → s.header ≡ some header
      → SourceReads came sent (read_data s)
  unfolding read_data
  read_data-Reads s header i e =
      by_result (read_available s.ebml) (read_available-Reads s.header came sent s.ebml i)
    where
      clusters : s.ebml.output_state ≡ reading_clusters
      clusters =
          (subst (λ (o : Option Bytes). Captured o s.ebml.output_state s.ebml.header) e i.kept).0

      by_result :
          (r : Ebml × Option Chunk)
          → Reads s.header came sent s.ebml.output_state s.ebml.header r
          → SourceReads came sent (record s { ebml = r.0 }, to_refbuf? r.1)
      by_result (ebml, none) (parser, mode, same) = parser
      by_result (ebml, some c) (inl (mode, took)) = absurd (cc (mode, clusters))
      by_result (ebml, some c) (inr (mode, took)) =
          (took.in_order, λ h. took.sync (is_sync-begins c.type h))

  read_rounds-Reads :
      (o : Option Bytes) (s : EbmlSource)
      → InStep came sent s
      → s.header ≡ o
      → SourceReads came sent (read_rounds o s)
  unfolding read_rounds capture
  read_rounds-Reads (some header) s i e = read_data-Reads s header i e
  read_rounds-Reads none s i e =
      by_result (read_available s.ebml) (read_available-Reads s.header came sent s.ebml i)
    where
      reading : s.ebml.output_state ≡ reading_header
      reading = subst (λ (o : Option Bytes). Captured o s.ebml.output_state s.ebml.header) e i.kept

      by_result :
          (r : Ebml × Option Chunk)
          → Reads s.header came sent s.ebml.output_state s.ebml.header r
          → SourceReads came sent (capture (record s { ebml = r.0 }) r.1)
      by_result (ebml, none) (parser, mode, same) = parser
      by_result (ebml, some c) (inl (mode, took)) =
          read_data-Reads (record s { ebml = ebml; header = some c.bytes }) c.bytes
            (subst (λ (h : Bytes). InOrder (some h) came sent (view ebml) ebml.input_buffer)
              (sym took.whole) took.in_order)
            refl
      by_result (ebml, some c) (inr (mode, took)) = absurd (cc (mode, reading))

abbrev pub joined : List Bytes → Bytes
joined [] = []
joined (b ∷ bs) = b ++ joined bs

-- With what is sent by a call.
abbrev pub adds : Bytes → Option Refbuf → Bytes
adds sent none = sent
adds sent (some r) = sent ++ r.bytes

abbrev pub SyncedIf : Option Refbuf → Type 0
SyncedIf none = Unit
SyncedIf (some r) = Synced r

-- Some of the bytes were used, and the source is in step with them and with the buffer that it
-- returned.
pub record GotFits (came sent : Bytes) (script : List Bytes) (g : Got) : Type 0 where
  pub used : Bytes
  pub from_script : joined script ≡ used ++ joined g.rest
  pub in_step : InStep (came ++ used) (adds sent g.refbuf) g.source
  pub sync : SyncedIf g.refbuf
  pub bytes : All (All IsByte) g.rest

-- A buffer is there already.
had_one :
    (came sent : Bytes) (script : List Bytes) (s : EbmlSource) (r : Refbuf)
    → All (All IsByte) script
    → InStep came (sent ++ r.bytes) s
    → Synced r
    → GotFits came sent script
        (record { source = s; refbuf = some r; rest = script; problem = false })
had_one came sent script s r a i sync = record {
  used = [];
  from_script = refl;
  in_step = subst (λ (x : Bytes). InStep x (sent ++ r.bytes) s) (sym (append-nil came)) i;
  sync = sync;
  bytes = a;
}

-- The client gives these bytes first.
gave :
    (came sent bytes : Bytes) (more : List Bytes) (g : Got)
    → GotFits (came ++ bytes) sent more g
    → GotFits came sent (bytes ∷ more) g
gave came sent bytes more g f = record {
  used = bytes ++ f.used;
  from_script =
      ap (λ (x : Bytes). bytes ++ x) f.from_script
      ∙ sym (append_assoc bytes f.used (joined g.rest));
  in_step =
      subst (λ (x : Bytes). InStep x (adds sent g.refbuf) g.source) (append_assoc came bytes f.used)
        f.in_step;
  sync = f.sync;
  bytes = f.bytes;
}

module _ (sent : Bytes) where
  no_bytes-GotFits :
      (came : Bytes) (s : EbmlSource)
      → InStep came sent s
      → (no_bytes s).problem ≡ false
      → GotFits came sent [] (no_bytes s)
  unfolding no_bytes no_bytes_wrote
  no_bytes-GotFits came s i =
      by_result (ebml_wrote s.ebml []) (ebml_wrote-Done s.header came sent s.ebml [] tt i)
    where
      by_result :
          (w : Wrote)
          → Done s.header (came ++ []) sent w
          → (no_bytes_wrote s w).problem ≡ false
          → GotFits came sent [] (no_bytes_wrote s w)
      by_result (wrote ebml) d p = (record {
        used = [];
        from_script = refl;
        in_step = d;
        sync = tt;
        bytes = tt;
      })
      by_result (failed ebml) d p = absurd (cc p)
      by_result (out_of_fuel ebml) d p = absurd d

  -- After bytes of the client, in whatever way the call goes on.
  after_wrote-GotFits :
      (came bytes : Bytes) (more : List Bytes) (next : EbmlSource → Got) (s : EbmlSource)
      (w : Wrote)
      → ((s' : EbmlSource)
          → InStep (came ++ bytes) sent s'
          → (next s').problem ≡ false
          → GotFits (came ++ bytes) sent more (next s'))
      → Done s.header (came ++ bytes) sent w
      → (after_wrote next s more w).problem ≡ false
      → GotFits came sent (bytes ∷ more) (after_wrote next s more w)
  unfolding after_wrote
  after_wrote-GotFits came bytes more next s (wrote ebml) further d p =
      gave came sent bytes more (next (record s { ebml = ebml }))
        (further (record s { ebml = ebml }) d p)
  after_wrote-GotFits came bytes more next s (failed ebml) further d p = absurd (cc p)
  after_wrote-GotFits came bytes more next s (out_of_fuel ebml) further d p = absurd d

  after_read-GotFits :
      (came : Bytes) (script : List Bytes) (feed : EbmlSource → Got)
      (r : EbmlSource × Option Refbuf)
      → All (All IsByte) script
      → ((s' : EbmlSource)
          → InStep came sent s'
          → (feed s').problem ≡ false
          → GotFits came sent script (feed s'))
      → SourceReads came sent r
      → (after_read feed script r).problem ≡ false
      → GotFits came sent script (after_read feed script r)
  unfolding after_read
  after_read-GotFits came script feed (s', some r) a fed (i', sync) p =
      had_one came sent script s' r a i' sync
  after_read-GotFits came script feed (s', none) a fed i' p = fed s' i' p

  pub get_buffer-GotFits :
      (script : List Bytes) (came : Bytes) (s : EbmlSource)
      → All (All IsByte) script
      → InStep came sent s
      → (get_buffer script s).problem ≡ false
      → GotFits came sent script (get_buffer script s)
  unfolding get_buffer
  get_buffer-GotFits [] came s a i =
      after_read-GotFits came [] no_bytes (read_rounds s.header s) a (no_bytes-GotFits came)
        (read_rounds-Reads came sent s.header s i refl)
  get_buffer-GotFits (bytes ∷ more) came s (a, others) i =
      after_read-GotFits came (bytes ∷ more)
        (λ s'. after_wrote (get_buffer more) s' more (ebml_wrote s'.ebml bytes))
        (read_rounds s.header s) (a, others)
        (λ s' i'.
          after_wrote-GotFits came bytes more (get_buffer more) s' (ebml_wrote s'.ebml bytes)
            (λ s'' i''. get_buffer-GotFits more (came ++ bytes) s'' others i'')
            (ebml_wrote-Done s'.header came sent s'.ebml bytes a i'))
        (read_rounds-Reads came sent s.header s i refl)
