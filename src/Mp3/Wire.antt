-- ===== src/Mp3/Wire.antt =====
-- The bytes that a part of `format_mp3_write_buf_to_client` of src/format_mp3.c puts on the wire, and
-- what a listener makes of them.
use icecast_server.Prelude.{
  ℕ, ◌+◌, ◌≤◌, ◌<◌, ◌≡◌, refl, sym, ap, ◌∙◌, true, false, Option, none, some, List, [], ◌∷◌, ◌++◌,
  arith, Bytes, length, take, append_assoc, append-nil, length-append, All, All-append, map,
}
use icecast_server.Listener.{Sent, accepts, blocks, breaks}
use icecast_server.Mp3.{Mp3Client, Meta, Sender, send_bytes, block_text, count_of, sent_all}
use icecast_server.Mp3.Demux.{Output, audio, block, Demux, feed, block_size, feed-append}

-- The audio among the outputs.
abbrev pub heard : List Output → Bytes
heard [] = []
heard (audio b ∷ outs) = b ∷ heard outs
heard (block p ∷ outs) = heard outs

-- A block is one of these texts.
abbrev pub IsBlock : Option Meta → Output → Type 0
IsBlock m (audio b) = Unit
IsBlock m (block p) = (sent : Option ℕ) × (p ≡ block_text m sent)

-- Metadata begins with the count of its further bytes, in units of 16.
abbrev pub IsMeta : Option Meta → Type 0
IsMeta none = Unit
IsMeta (some m) = length m.text ≡ block_size m.text

abbrev pub Prefix : Bytes → Bytes → Type 0
Prefix xs ys = (rest : Bytes) × (xs ++ rest ≡ ys)

-- Where the listener is, and where the code takes it to be.
pub record Tuned (m : Option Meta) (c : Mp3Client) (d : Demux) : Type 0 where
  pub interval : d.interval ≡ c.interval
  pub positive : 0 < c.interval
  pub since : d.since ≡ c.since_meta_block
  pub within : c.since_meta_block ≤ c.interval
  pub part : d.part ≡ take c.metadata_offset (block_text m c.associated)
  pub offset : c.metadata_offset < length (block_text m c.associated)
  pub between : c.in_metadata ≡ false → c.metadata_offset ≡ 0
  pub inside : c.in_metadata ≡ true → c.since_meta_block ≡ c.interval

-- What a part of the write puts on the wire, and what the listener makes of it.
pub record Emits (m : Option Meta) (s : Sender) (d : Demux) (s' : Sender) (d' : Demux)
    (bytes : Bytes) : Type 0 where
  pub wire : Bytes
  pub outs : List Output
  pub on_wire : s'.wire ≡ s.wire ++ wire
  pub fed : feed d wire ≡ (d', outs)
  pub audio_heard : heard outs ≡ bytes
  pub blocks_sent : All (IsBlock m) outs
  pub moved : s'.pos ≡ s.pos + length bytes
  pub same_interval : s'.client.interval ≡ s.client.interval

pub heard-append : (xs ys : List Output) → heard (xs ++ ys) ≡ heard xs ++ heard ys
heard-append [] ys = refl
heard-append (audio b ∷ xs) ys = ap (◌∷◌ b) (heard-append xs ys)
heard-append (block p ∷ xs) ys = heard-append xs ys

pub heard-audio : (xs : Bytes) → heard (map audio xs) ≡ xs
heard-audio [] = refl
heard-audio (x ∷ xs) = ap (◌∷◌ x) (heard-audio xs)

pub audio-IsBlock : (m : Option Meta) (xs : Bytes) → All (IsBlock m) (map audio xs)
audio-IsBlock m [] = tt
audio-IsBlock m (x ∷ xs) = (tt, audio-IsBlock m xs)

pub Emits-then :
    {m : Option Meta} {s s1 s2 : Sender} {d d1 d2 : Demux} {xs ys : Bytes}
    → Emits m s d s1 d1 xs
    → Emits m s1 d1 s2 d2 ys
    → Emits m s d s2 d2 (xs ++ ys)
Emits-then {m} {s} {s1} {d} {d1} {xs} {ys} a b = record {
  wire = a.wire ++ b.wire;
  outs = a.outs ++ b.outs;
  on_wire =
      b.on_wire ∙ ap (λ (w : Bytes). w ++ b.wire) a.on_wire ∙ append_assoc s.wire a.wire b.wire;
  fed = feed-append a.wire b.wire d ∙ simp (a.fed, b.fed) refl;
  audio_heard = heard-append a.outs b.outs ∙ rw (a.audio_heard, b.audio_heard) refl;
  blocks_sent = All-append (IsBlock m) a.outs b.outs a.blocks_sent b.blocks_sent;
  moved = omega (arith, a.moved, b.moved, length-append xs ys);
  same_interval = b.same_interval ∙ a.same_interval;
}

pub Emits-nothing : (m : Option Meta) (s : Sender) (d : Demux) → Emits m s d s d []
Emits-nothing m s d = record {
  wire = [];
  outs = [];
  on_wire = sym (append-nil s.wire);
  fed = unfold feed in refl;
  audio_heard = refl;
  blocks_sent = tt;
  moved = omega arith;
  same_interval = refl;
}

-- What the socket takes is the beginning of what it is given.
pub record Took (bytes : Bytes) (s : Sender) (r : Option ℕ × Sender) : Type 0 where
  pub at_most : count_of r.0 ≤ length bytes
  pub wire : r.1.wire ≡ s.wire ++ take (count_of r.0) bytes
  pub pos : r.1.pos ≡ s.pos
  pub all : sent_all r.0 (length bytes) ≡ true → count_of r.0 ≡ length bytes
  pub part : sent_all r.0 (length bytes) ≡ false → 0 < length bytes → count_of r.0 < length bytes

pub send_bytes-Took :
    (bytes : Bytes) (socket : List Sent) (s : Sender) → Took bytes s (send_bytes bytes socket s)
unfolding send_bytes
send_bytes-Took bytes [] s = record {
  at_most = omega arith;
  wire = sym (append-nil s.wire);
  pos = refl;
  all = λ e. cc;
  part = λ e h. h;
}
send_bytes-Took bytes (accepts n ∷ rest) s = record {
  at_most = ground arith;
  wire = refl;
  pos = refl;
  all = λ e. ground (arith, e);
  part = λ e h. ground (arith, e);
}
send_bytes-Took bytes (blocks ∷ rest) s = record {
  at_most = omega arith;
  wire = sym (append-nil s.wire);
  pos = refl;
  all = λ e. cc;
  part = λ e h. h;
}
send_bytes-Took bytes (breaks ∷ rest) s = record {
  at_most = omega arith;
  wire = sym (append-nil s.wire);
  pos = refl;
  all = λ e. cc;
  part = λ e h. h;
}
