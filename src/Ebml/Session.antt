-- ===== src/Ebml/Session.antt =====
-- A stream from its beginning.
use icecast_server.Prelude.{
  append-nil, subst, append_assoc, Bytes, All, zero, suc, ◌≡◌, refl, sym, ap, ◌∙◌, inl, Bool, true,
  false, ◌||◌, Option, none, some, List, [], ◌∷◌, ◌++◌, arith, ℕ,
}
use icecast_server.Ebml.State.{ebml_create}
use icecast_server.Ebml.Output.{EbmlSource, Refbuf, get_buffer}
use icecast_server.Ebml.Digits.{IsByte}
use icecast_server.Ebml.InOrder.{Captured}
use icecast_server.Ebml.Streamed.{InStep, Synced, joined, adds, SyncedIf, get_buffer-GotFits}

-- A source of which nothing has come.
abbrev pub new_source : EbmlSource
new_source = record { ebml = ebml_create; header = none; running = true }

-- What some calls of `ebml_get_buffer` came to.
pub record Played : Type 0 where
  pub buffers : List Refbuf
  pub source : EbmlSource
  pub rest : List Bytes
  pub problem : Bool

abbrev pub put : Option Refbuf → List Refbuf → List Refbuf
put none rs = rs
put (some r) rs = r ∷ rs

abbrev pub play : ℕ → List Bytes → EbmlSource → Played
play zero script s = record { buffers = []; source = s; rest = script; problem = false }
play (suc n) script s =
    let g = get_buffer script s in
    let more = play n g.rest g.source in
    record {
      buffers = put g.refbuf more.buffers;
      source = more.source;
      rest = more.rest;
      problem = g.problem || more.problem;
    }

abbrev pub sent_by : List Refbuf → Bytes
sent_by [] = []
sent_by (r ∷ rs) = r.bytes ++ sent_by rs

record PlayFits (came sent : Bytes) (script : List Bytes) (p : Played) : Type 0 where
  used : Bytes
  from_script : joined script ≡ used ++ joined p.rest
  in_step : InStep (came ++ used) (sent ++ sent_by p.buffers) p.source
  sync : All Synced p.buffers

or-false : (a b : Bool) → (a || b) ≡ false → (a ≡ false) × (b ≡ false)
or-false true b h = absurd (cc h)
or-false false b h = (refl, h)

put-sent :
    (sent : Bytes) (o : Option Refbuf) (rs : List Refbuf)
    → adds sent o ++ sent_by rs ≡ sent ++ sent_by (put o rs)
put-sent sent none rs = refl
put-sent sent (some r) rs = append_assoc sent r.bytes (sent_by rs)

put-Synced :
    (o : Option Refbuf) (rs : List Refbuf) → SyncedIf o → All Synced rs → All Synced (put o rs)
put-Synced none rs h k = k
put-Synced (some r) rs h k = (h, k)

play-PlayFits :
    (n : ℕ) (came sent : Bytes) (script : List Bytes) (s : EbmlSource)
    → All (All IsByte) script
    → InStep came sent s
    → (play n script s).problem ≡ false
    → PlayFits came sent script (play n script s)
play-PlayFits zero came sent script s a i p = record {
  used = [];
  from_script = refl;
  in_step =
      subst (λ (x : Bytes). InStep x (sent ++ []) s) (sym (append-nil came))
        (subst (λ (x : Bytes). InStep came x s) (sym (append-nil sent)) i);
  sync = tt;
}
play-PlayFits (suc n) came sent script s a i p =
    let g = get_buffer script s in
    let (fine, later) = or-false g.problem (play n g.rest g.source).problem p in
    let f = get_buffer-GotFits sent script came s a i fine in
    let k =
      play-PlayFits n (came ++ f.used) (adds sent g.refbuf) g.rest g.source f.bytes f.in_step
        later in
    record {
      used = f.used ++ k.used;
      from_script =
          f.from_script
          ∙ ap (λ (x : Bytes). f.used ++ x) k.from_script
          ∙ sym (append_assoc f.used k.used (joined (play n g.rest g.source).rest));
      in_step =
          subst
            (λ (x : Bytes).
              InStep x (sent ++ sent_by (put g.refbuf (play n g.rest g.source).buffers))
                (play n g.rest g.source).source)
            (append_assoc came f.used k.used)
            (subst
              (λ (x : Bytes). InStep ((came ++ f.used) ++ k.used) x (play n g.rest g.source).source)
              (put-sent sent g.refbuf (play n g.rest g.source).buffers) k.in_step);
      sync = put-Synced g.refbuf (play n g.rest g.source).buffers f.sync k.sync;
    }

pub new_source-InStep : InStep [] [] new_source
new_source-InStep = record {
  order = refl;
  bytes = tt;
  state = tt;
  header =
      inl
        (record { early = refl; none_sent = refl; empty = refl; no_start = refl; no_size = refl });
  kept = refl;
  reader = inl (refl, refl);
  start = tt;
  buffer_within = omega arith;
  header_within = omega arith;
}

-- What was sent is what came.
pub record IsStreamed (script : List Bytes) (p : Played) : Type 0 where
  pub used : Bytes
  pub from_script : joined script ≡ used ++ joined p.rest
  pub order : (header : Bytes) → p.source.header ≡ some header → p.source.ebml.header ≡ header
  pub in_order :
      p.source.ebml.header
        ++ (sent_by p.buffers ++ (p.source.ebml.buffer ++ p.source.ebml.input_buffer))
      ≡ used
  pub sync : All Synced p.buffers

-- From a new source, however many calls of ebml_get_buffer are made and in whatever pieces the client
-- gives the bytes, if every call of ebml_wrote returns the length, then the header, the buffers that
-- were returned, and what the parser still holds are, in this order, the bytes that came; a header
-- that was captured is that header, and a buffer that is marked as a sync point begins with a cluster.
pub play-IsStreamed :
    (n : ℕ) (script : List Bytes)
    → All (All IsByte) script
    → (play n script new_source).problem ≡ false
    → IsStreamed script (play n script new_source)
play-IsStreamed n script a p =
    let f = play-PlayFits n [] [] script new_source a new_source-InStep p in
    let s = (play n script new_source).source in
    let step = f.in_step in
    record {
      used = f.used;
      from_script = f.from_script;
      order = λ header e.
          sym
            (subst (λ (o : Option Bytes). Captured o s.ebml.output_state s.ebml.header) e
              step.kept).1;
      in_order = step.order;
      sync = f.sync;
    }
