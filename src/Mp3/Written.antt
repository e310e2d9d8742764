-- ===== src/Mp3/Written.antt =====
-- `format_mp3_write_buf_to_client` of src/format_mp3.c against the description of `Demux`.
use icecast_server.Prelude.{
  subst, ℕ, ◌+◌, ◌-◌, ◌≤◌, ◌≡◌, refl, sym, ap, ◌∙◌, true, false, not, ◌&&◌, Option, [], ◌++◌, arith,
  leb, ◌==◌, if◌then◌else◌, Bytes, length, take, drop, by_test, append_assoc, take-drop,
  length-take, take-within,
}
use icecast_server.Mp3.{
  Meta, Sender, Step, send_stream_metadata, send_audio, idle_step, and_then, send_rest, send_around,
  send_interval, write_buf_to_client,
}
use icecast_server.Mp3.Demux.{Demux}
use icecast_server.Mp3.Wire.{IsMeta, Prefix, Tuned, Emits, Emits-then, Emits-nothing}
use icecast_server.Mp3.Sent.{Sends, AudioSent, send_audio-AudioSent, send_stream_metadata-MetaSent}

Prefix-take : (n : ℕ) (xs ys : Bytes) → Prefix xs (take n ys) → Prefix xs ys
Prefix-take n xs ys (rest, e) = (
  rest ++ drop n ys,
  sym (append_assoc xs rest (drop n ys)) ∙ ap (λ (t : Bytes). t ++ drop n ys) e ∙ take-drop n ys,
)

Prefix-drop : (n : ℕ) (xs ys : Bytes) → Prefix xs (drop n ys) → Prefix (take n ys ++ xs) ys
Prefix-drop n xs ys (rest, e) =
    (rest, append_assoc (take n ys) xs rest ∙ ap (λ (t : Bytes). take n ys ++ t) e ∙ take-drop n ys)

idle-Sends :
    (m : Option Meta) (s : Sender) (d : Demux) (there : Bytes)
    → Tuned m s.client d
    → Sends m s d (idle_step s) there
idle-Sends m s d there t = record {
  after = d;
  bytes = [];
  emits = Emits-nothing m s d;
  tuned = t;
  first = (there, refl);
}

-- One part after another.
and_then-Sends :
    (m : Option Meta) (s : Sender) (d : Demux) (a : Step) (next : Sender → Step)
    (there1 there2 there : Bytes) (x : Sends m s d a there1)
    → Prefix x.bytes there
    → (a.goes_on ≡ true
        → (y : Sends m a.sender x.after (next a.sender) there2) × Prefix (x.bytes ++ y.bytes) there)
    → Sends m s d (and_then a next) there
and_then-Sends m s d a next there1 there2 there x p go =
    by_test (λ (r : Step). Sends m s d r there) a.goes_on _ _
      (λ e.
        let (y, q) = go e in
        record {
          after = y.after;
          bytes = x.bytes ++ y.bytes;
          emits = Emits-then x.emits y.emits;
          tuned = y.tuned;
          first = q;
        })
      (λ e. record {
        after = x.after;
        bytes = x.bytes;
        emits = x.emits;
        tuned = x.tuned;
        first = p;
      })

module _ (m : Option Meta) (good : IsMeta m) where
  send_rest-Sends :
      (s : Sender) (d : Demux) (bytes : Bytes)
      → Tuned m s.client d
      → s.client.in_metadata ≡ false
      → s.client.since_meta_block + length bytes ≤ s.client.interval
      → Sends m s d (send_rest bytes s) bytes
  unfolding send_rest
  send_rest-Sends s d bytes t between room =
      by_test (λ (r : Step). Sends m s d r bytes) (length bytes == 0) _ _
        (λ e. idle-Sends m s d bytes t)
        (λ e. (send_audio-AudioSent m good s d bytes t between room).sends)

  -- The audio before the block, if there is any.
  before_block :
      (s : Sender) (d : Demux) (remaining : ℕ) (bytes : Bytes)
      → Tuned m s.client d
      → s.client.in_metadata ≡ false
      → remaining ≡ s.client.interval - s.client.since_meta_block
      → remaining ≤ length bytes
      → AudioSent m good s d
          (take remaining bytes)
          (if remaining == 0 then idle_step s else send_audio (take remaining bytes) s)
  unfolding idle-Sends
  before_block s d remaining bytes t between r h =
      let len = length-take remaining bytes h in
      by_test (λ (x : Step). AudioSent m good s d (take remaining bytes) x) (remaining == 0) _ _
        (λ e.
          let none_left : remaining ≡ 0 = ground (arith, e) in
          let nothing : take remaining bytes ≡ [] = ap (λ (k : ℕ). take k bytes) none_left in
          record {
            sends = idle-Sends m s d (take remaining bytes) t;
            ready = between;
            whole = λ g. (sym nothing, omega (arith, len, none_left));
          })
        (λ e.
          send_audio-AudioSent m good s d (take remaining bytes) t between
            (omega (arith, len, r, t.within)))

  send_around-Sends :
      (s : Sender) (d : Demux) (remaining : ℕ) (bytes : Bytes)
      → Tuned m s.client d
      → s.client.in_metadata ≡ false
      → remaining ≡ s.client.interval - s.client.since_meta_block
      → remaining ≤ length bytes
      → Sends m s d (send_around m remaining bytes s) bytes
  unfolding send_around
  send_around-Sends s d remaining bytes t between r h =
      let a = before_block s d remaining bytes t between r h in
      let len = length-take remaining bytes h in
      let tail : Sender → Step =
        λ s2. send_rest (take s.client.interval (drop remaining bytes)) s2 in
      let onward : Sender → Step = λ s1. and_then (send_stream_metadata m s1) tail in
      and_then-Sends m s d _ onward (take remaining bytes) (drop remaining bytes) bytes a.sends
        (Prefix-take remaining a.sends.bytes bytes a.sends.first)
        (λ e.
          let (all, since) = a.whole e in
          let same = a.sends.emits.same_interval in
          let s1 =
            (if remaining == 0 then idle_step s else send_audio (take remaining bytes) s).sender in
          let b =
            send_stream_metadata-MetaSent m good s1 a.sends.after a.sends.tuned
              (omega (arith, since, len, r, same, t.within)) in
          let after_meta =
            and_then-Sends m s1 a.sends.after (send_stream_metadata m s1) tail []
              (take s.client.interval (drop remaining bytes)) (drop remaining bytes) b.sends
              (drop remaining bytes, ap (λ (x : Bytes). x ++ drop remaining bytes) b.silent)
              (λ g.
                let (ready, zero_since) = b.whole g in
                let s2 = (send_stream_metadata m s1).sender in
                let fits = take-within s.client.interval (drop remaining bytes) in
                let c =
                  send_rest-Sends s2 b.sends.after (take s.client.interval (drop remaining bytes))
                    b.sends.tuned ready
                    (omega (arith, zero_since, fits, same, b.sends.emits.same_interval)) in
                let first = Prefix-take s.client.interval c.bytes (drop remaining bytes) c.first in
                (
                  c,
                  subst (λ (x : Bytes). Prefix (x ++ c.bytes) (drop remaining bytes)) (sym b.silent)
                      first,
                )) in
          let from_all =
            subst (λ (x : Bytes). Prefix (x ++ after_meta.bytes) bytes) (sym all)
              (Prefix-drop remaining after_meta.bytes bytes after_meta.first) in
          (after_meta, from_all))

  send_interval-Sends :
      (s : Sender) (d : Demux) (bytes : Bytes)
      → Tuned m s.client d
      → s.client.in_metadata ≡ false
      → Sends m s d (send_interval m bytes s) bytes
  unfolding send_interval
  send_interval-Sends s d bytes t between =
      let remaining = s.client.interval - s.client.since_meta_block in
      by_test (λ (r : Step). Sends m s d r bytes)
        (not (s.client.interval == 0) && leb remaining (length bytes)) _ _
        (λ e. send_around-Sends s d remaining bytes t between refl (ground (arith, e)))
        (λ e. send_rest-Sends s d bytes t between (ground (arith, e, t.positive, t.within)))

  -- For a listener that asked for metadata, and is in step with what the code keeps of it: whatever
  -- the socket takes of what `format_mp3_write_buf_to_client` sends, the bytes on the wire are, to the
  -- description of the stream, the next bytes of the buffer as audio, as many as `pos` moves on, and
  -- between them only whole blocks of metadata, or a part of one at the end; and the listener is in
  -- step again.
  pub write_buf_to_client-Demuxed :
      (buffer : Bytes) (s : Sender) (d : Demux)
      → Tuned m s.client d
      → (d' : Demux) × (bytes : Bytes) × Emits m s d
          (write_buf_to_client m buffer s).sender
          d'
          bytes
        × Tuned m (write_buf_to_client m buffer s).sender.client d'
        × Prefix bytes (drop s.pos buffer)
  unfolding write_buf_to_client idle-Sends
  write_buf_to_client-Demuxed buffer s d t =
      let there = drop s.pos buffer in
      let next = send_interval m there in
      let a = λ (e : s.client.in_metadata ≡ true).
        send_stream_metadata-MetaSent m good s d t (t.inside e) in
      let r =
        by_test (λ (x : Step). Sends m s d (and_then x next) there) s.client.in_metadata _ _
          (λ e.
            and_then-Sends m s d (send_stream_metadata m s) next [] there there (a e).sends
              (there, ap (λ (x : Bytes). x ++ there) (a e).silent)
              (λ g.
                let b =
                  send_interval-Sends (send_stream_metadata m s).sender (a e).sends.after there
                    (a e).sends.tuned ((a e).whole g).0 in
                (b, subst (λ (x : Bytes). Prefix (x ++ b.bytes) there) (sym (a e).silent) b.first)))
          (λ e.
            let b = send_interval-Sends s d there t e in
            and_then-Sends m s d (idle_step s) next [] there there (idle-Sends m s d [] t)
              (there, refl) (λ g. (b, b.first))) in
      (r.after, r.bytes, r.emits, r.tuned, r.first)
