-- ===== src/Mp3/Sent.antt =====
-- Sending audio and sending a block, for a listener that is in step.
use icecast_server.Prelude.{
  take-add, last_split, take-all, take-drop, length-drop, drop, by_test, length-take, ◌-◌, ◌*◌, inl,
  inr, Bool-cases, ℕ, ◌+◌, ◌≤◌, ◌<◌, ◌≡◌, refl, sym, ap, ◌∙◌, true, false, Option, none, some, [],
  ◌∷◌, ◌++◌, arith, Bytes, length, take, append_assoc, map,
}
use icecast_server.Mp3.{
  id_of, same_meta, unsent, send_stream_metadata, no_title, send_audio, Step, Mp3Client, Meta,
  Sender, send_bytes, block_text, count_of, sent_all,
}
use icecast_server.Mp3.Demux.{
  feed-part, feed-whole, feed-audio, audio, block, Demux, feed, block_size,
}
use icecast_server.Mp3.Wire.{
  IsMeta, Prefix, Tuned, Emits, heard-audio, audio-IsBlock, send_bytes-Took,
}

-- How a part of the write, of which so much audio is there to send, comes out.
pub record Sends (m : Option Meta) (s : Sender) (d : Demux) (r : Step) (there : Bytes)
    : Type 0 where
  pub after : Demux
  pub bytes : Bytes
  pub emits : Emits m s d r.sender after bytes
  pub tuned : Tuned m r.sender.client after
  pub first : Prefix bytes there

module _ (m : Option Meta) (good : IsMeta m) where
  -- Audio up to the next block at most.
  pub record AudioSent (s : Sender) (d : Demux) (bytes : Bytes) (r : Step) : Type 0 where
    pub sends : Sends m s d r bytes
    pub ready : r.sender.client.in_metadata ≡ false
    pub whole :
        r.goes_on ≡ true
        → (sends.bytes ≡ bytes)
          × (r.sender.client.since_meta_block ≡ s.client.since_meta_block + length bytes)

  pub send_audio-AudioSent :
      (s : Sender) (d : Demux) (bytes : Bytes)
      → Tuned m s.client d
      → s.client.in_metadata ≡ false
      → s.client.since_meta_block + length bytes ≤ s.client.interval
      → AudioSent s d bytes (send_audio bytes s)
  unfolding send_audio
  send_audio-AudioSent s d bytes t between room =
      let r = send_bytes bytes s.socket s in
      let took = send_bytes-Took bytes s.socket s in
      let k = count_of r.0 in
      let len = length-take k bytes took.at_most in
      let since : d.since + length (take k bytes) ≡ s.client.since_meta_block + k =
        omega (arith, len, t.since) in
      let fed =
        feed-audio (take k bytes) d (omega (arith, since, t.interval, took.at_most, room)) in
      record {
        sends = record {
          after = record d { since = d.since + length (take k bytes) };
          bytes = take k bytes;
          emits = record {
            wire = take k bytes;
            outs = map audio (take k bytes);
            on_wire = took.wire;
            fed = fed;
            audio_heard = heard-audio (take k bytes);
            blocks_sent = audio-IsBlock m (take k bytes);
            moved = omega (arith, len);
            same_interval = refl;
          };
          tuned = record {
            interval = t.interval;
            positive = t.positive;
            since = since;
            within = omega (arith, took.at_most, room);
            part = t.part;
            offset = t.offset;
            between = t.between;
            inside = λ e. absurd (cc (e, between));
          };
          first = (drop k bytes, take-drop k bytes);
        };
        ready = between;
        whole = λ e.
            let all = took.all e in (take-all k bytes (omega (arith, all)), omega (arith, all));
      }

  no_title_whole : length no_title ≡ block_size no_title
  no_title_whole = refl

  -- Whatever is to be sent is a whole block.
  block_text_whole :
      (o : Option Meta) (sent : Option ℕ)
      → IsMeta o
      → (length (block_text o sent) ≡ block_size (block_text o sent))
        × (0 < length (block_text o sent))
  unfolding block_text
  block_text_whole none sent h = (refl, omega arith)
  block_text_whole (some o) sent h =
      by_test (λ (t : Bytes). (length t ≡ block_size t) × (0 < length t)) (same_meta o.id sent) _ _
        (λ e. (refl, omega arith)) (λ e. (h, not_empty o.text h))
    where
      not_empty : (t : Bytes) → length t ≡ block_size t → 0 < length t
      not_empty [] e = absurd (omega (arith, e))
      not_empty (x ∷ t) e = omega arith

  unsent_rest :
      (o : Option Meta) (c : Mp3Client)
      → c.metadata_offset < length (block_text o c.associated)
      → unsent o c ≡ drop c.metadata_offset (block_text o c.associated)
  unfolding unsent block_text
  unsent_rest none c h = refl
  unsent_rest (some o) c h = elim (Bool-cases (same_meta o.id c.associated)) [
    | inl e ↦
        let h' : c.metadata_offset < 1 = simp e at h in
        let start : c.metadata_offset ≡ 0 = omega (arith, h') in simp (e, start) refl
    | inr e ↦ simp e refl
  ]

  -- A part of a whole block is not whole.
  part_open :
      (p rest t : Bytes)
      → p ++ rest ≡ t
      → length p < length t
      → length t ≡ block_size t
      → length p < block_size p
  part_open [] rest t e h w = omega arith
  part_open (x ∷ p) rest t e h w =
      let size : block_size t ≡ 1 + x * 16 = ap block_size (sym e) in omega (arith, size, h, w)

  pub record MetaSent (s : Sender) (d : Demux) (r : Step) : Type 0 where
    pub sends : Sends m s d r []
    pub silent : sends.bytes ≡ []
    pub whole :
        r.goes_on ≡ true
        → (r.sender.client.in_metadata ≡ false) × (r.sender.client.since_meta_block ≡ 0)

  pub send_stream_metadata-MetaSent :
      (s : Sender) (d : Demux)
      → Tuned m s.client d
      → s.client.since_meta_block ≡ s.client.interval
      → MetaSent s d (send_stream_metadata m s)
  unfolding send_stream_metadata
  send_stream_metadata-MetaSent s d t full =
      let c = s.client in
      let text = block_text m c.associated in
      let rest = unsent m c in
      let r = send_bytes rest s.socket s in
      let took = send_bytes-Took rest s.socket s in
      let k = count_of r.0 in
      let n = c.metadata_offset in
      let is_rest = unsent_rest m c t.offset in
      let whole = block_text_whole m c.associated good in
      let left : length rest ≡ length text - n = ap length is_rest ∙ length-drop n text in
      let at_end : d.interval ≤ d.since = omega (arith, t.interval, t.since, full) in
      by_test (λ (x : Step). MetaSent s d x) (sent_all r.0 (length rest)) _ _
        (λ e.
          let all = took.all e in
          let sent : take k rest ≡ drop n text = take-all k rest (omega (arith, all)) ∙ is_rest in
          let (p, x, ends) = last_split rest (omega (arith, left, t.offset)) in
          let joined : (d.part ++ p) ++ x ∷ [] ≡ text =
            append_assoc d.part p (x ∷ [])
            ∙ ap (λ (q : Bytes). d.part ++ q) (sym ends ∙ is_rest)
            ∙ ap (λ (q : Bytes). q ++ drop n text) t.part
            ∙ take-drop n text in
          let complete : length ((d.part ++ p) ++ x ∷ []) ≡ block_size ((d.part ++ p) ++ x ∷ []) =
            ap length joined ∙ whole.0 ∙ sym (ap block_size joined) in
          let fed = feed-whole p x d at_end complete in
          let next = block_text_whole m (id_of m) good in
          record {
            sends = record {
              after = record d { since = 0; part = [] };
              bytes = [];
              emits = record {
                wire = rest;
                outs = block text ∷ [];
                on_wire =
                    took.wire
                    ∙ ap (λ (q : Bytes). s.wire ++ q) (take-all k rest (omega (arith, all)));
                fed =
                    ap (feed d) ends
                    ∙ fed
                    ∙ ap (λ (q : Bytes). (record d { since = 0; part = [] }, block q ∷ [])) joined;
                audio_heard = refl;
                blocks_sent = ((c.associated, refl), tt);
                moved = omega (arith, took.pos);
                same_interval = refl;
              };
              tuned = record {
                interval = t.interval;
                positive = t.positive;
                since = refl;
                within = omega arith;
                part = refl;
                offset = next.1;
                between = λ q. refl;
                inside = λ q. absurd (cc (q));
              };
              first = ([], refl);
            };
            silent = refl;
            whole = λ q. (refl, refl);
          })
        (λ e.
          let some_left = took.part e (omega (arith, left, t.offset)) in
          let part_sent : d.part ++ take k rest ≡ take (n + k) text =
            ap (λ (q : Bytes). q ++ take k rest) t.part
            ∙ ap (λ (q : Bytes). take n text ++ take k q) is_rest
            ∙ take-add n k text in
          let size : length (take (n + k) text) ≡ n + k =
            length-take (n + k) text (omega (arith, some_left, left)) in
          let short : length (d.part ++ take k rest) < block_size (d.part ++ take k rest) =
            part_open (d.part ++ take k rest) (drop (n + k) text) text
              (ap (λ (q : Bytes). q ++ drop (n + k) text) part_sent ∙ take-drop (n + k) text)
              (omega (arith, ap length part_sent, size, some_left, left)) whole.0 in
          record {
            sends = record {
              after = record d { part = d.part ++ take k rest };
              bytes = [];
              emits = record {
                wire = take k rest;
                outs = [];
                on_wire = took.wire;
                fed = feed-part (take k rest) d at_end short;
                audio_heard = refl;
                blocks_sent = tt;
                moved = omega (arith, took.pos);
                same_interval = refl;
              };
              tuned = record {
                interval = t.interval;
                positive = t.positive;
                since = t.since;
                within = t.within;
                part = part_sent;
                offset = omega (arith, some_left, left);
                between = λ q. absurd (cc (q));
                inside = λ q. full;
              };
              first = ([], refl);
            };
            silent = refl;
            whole = λ q. absurd (cc (q));
          })
