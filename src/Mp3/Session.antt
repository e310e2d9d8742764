-- ===== src/Mp3/Session.antt =====
-- A source with inline metadata, over any number of calls of `mp3_set_tag` and
-- `mp3_get_filter_meta` of src/format_mp3.c.
use icecast_server.Prelude.{
  subst, All, ◌≡◌, refl, sym, ap, ◌∙◌, Bool, true, false, Option, none, some, List, [], ◌∷◌, ◌++◌,
  Bytes, append_assoc, append-nil, by_test,
}
use icecast_server.Mp3.{
  read_stream, SourceCall, tagged, read, TagLibrary, Plugin, set_tag, comments_of, get_filter_meta,
  Mp3State, Read, stored, complete_read, filter_meta, Comments, update_title, Got, finish_meta,
}
use icecast_server.Mp3.Demux.{Output, Demux, feed, feed-append}
use icecast_server.Mp3.Demuxed.{filter_meta-Demuxed}
use icecast_server.Mp3.Reader.{consume, Shows, view_of}
use icecast_server.Mp3.Wire.{heard, heard-append}
use icecast_server.Mp3.Kept.{
  bytes_of, NoError, consume-heard, SameParse, SameParse-Shows, update_title-SameParse,
  complete_read-bytes, buffer_of,
}

-- How the code and the description get on: they took the same bytes, and what the code still stores is
-- what is left of those that came.
pub record InStep (s : Mp3State) (came : Bytes) (d : Demux) (sound : Bytes) : Type 0 where
  pub now : Demux
  pub took : Bytes
  pub outs : List Output
  pub fed : feed d took ≡ (now, outs)
  pub shows : Shows s now
  pub sound_heard : sound ≡ heard outs
  pub all : came ≡ took ++ stored s.read_data

-- All bytes that were read.
abbrev pub concat_bytes : List SourceCall → Bytes
concat_bytes [] = []
concat_bytes (tagged _ _ _ ∷ calls) = concat_bytes calls
concat_bytes (read r ∷ calls) = bytes_of r ++ concat_bytes calls

abbrev pub NoFailure : SourceCall → Type 0
NoFailure (tagged _ _ _) = Unit
NoFailure (read r) = NoError r

module _ (d : Demux) where
  filtered :
      (s : Mp3State) (src came sound : Bytes) (x : InStep s came d sound) (s1 : Mp3State)
      → SameParse s s1
      → (finish_meta (filter_meta s1 src)).running ≡ true
      → InStep
          (finish_meta (filter_meta s1 src)).state
          (x.took ++ src)
          d
          (sound ++ stored (finish_meta (filter_meta s1 src)).buffer)
  unfolding finish_meta
  filtered s src came sound x s1 p =
      let f = filter_meta s1 src in
      let a = filter_meta-Demuxed s1 x.now src (SameParse-Shows s s1 x.now p x.shows) in
      by_test
        (λ (g : Got).
          g.running ≡ true → InStep g.state (x.took ++ src) d (sound ++ stored g.buffer))
        f.ended _ _ (λ q run. cc)
        (λ q run.
          let going : (consume (view_of s1 []) (feed x.now src).1).ended ≡ false =
            sym a.ended ∙ q in
          record {
            now = (feed x.now src).0;
            took = x.took ++ src;
            outs = x.outs ++ (feed x.now src).1;
            fed = feed-append x.took src d ∙ simp (x.fed) refl;
            shows =
                SameParse-Shows f.state _ _
                  (record { offset = refl; interval = refl; bytes = refl; size = refl })
                  (a.shows going);
            sound_heard =
                ap (λ (b : Bytes). sound ++ b)
                  (buffer_of f.audio
                    ∙ a.heard
                    ∙ consume-heard (feed x.now src).1 (view_of s1 []) going)
                ∙ ap (λ (b : Bytes). b ++ heard (feed x.now src).1) x.sound_heard
                ∙ sym (heard-append x.outs (feed x.now src).1);
            all = sym (append-nil (x.took ++ src));
          })

  one_read :
      (vc : Comments) (r : Read) (s : Mp3State) (came sound : Bytes)
      → NoError r
      → InStep s came d sound
      → (get_filter_meta vc r s).running ≡ true
      → InStep
          (get_filter_meta vc r s).state
          (came ++ bytes_of r)
          d
          (sound ++ stored (get_filter_meta vc r s).buffer)
  unfolding get_filter_meta
  one_read vc r s came sound ok x =
      let read = complete_read s.read_data r in
      let kept = complete_read-bytes s.read_data r ok in
      let all : came ++ bytes_of r ≡ x.took ++ stored read.0 =
        ap (λ (b : Bytes). b ++ bytes_of r) x.all
        ∙ append_assoc x.took (stored s.read_data) (bytes_of r)
        ∙ ap (λ (b : Bytes). x.took ++ b) (sym kept) in
      by_test
        (λ (g : Got).
          g.running ≡ true → InStep g.state (came ++ bytes_of r) d (sound ++ stored g.buffer))
        read.1 _ _
        (λ e run.
          let s1 = update_title vc (record s { read_data = none }) in
          let y = filtered s (stored read.0) came sound x s1 (update_title-SameParse vc s) run in
          subst
            (λ (b : Bytes).
              InStep (finish_meta (filter_meta s1 (stored read.0))).state b d
                (sound ++ stored (finish_meta (filter_meta s1 (stored read.0))).buffer))
            (sym all) y)
        (λ e run. record {
          now = x.now;
          took = x.took;
          outs = x.outs;
          fed = x.fed;
          shows =
              SameParse-Shows s _ x.now
                (record { offset = refl; interval = refl; bytes = refl; size = refl }) x.shows;
          sound_heard = append-nil sound ∙ x.sound_heard;
          all = all;
        })

  set_tag-InStep :
      (lib : TagLibrary) (tag value charset : Option Bytes) (plugin : Plugin) (s : Mp3State)
      (came sound : Bytes)
      → InStep s came d sound
      → InStep (set_tag lib tag value charset plugin s).1 came d sound
  unfolding set_tag
  set_tag-InStep lib none value charset plugin s came sound x =
      let s' = record s { update_metadata = true } in
      record {
        now = x.now;
        took = x.took;
        outs = x.outs;
        fed = x.fed;
        shows =
            SameParse-Shows s s' x.now
              (record { offset = refl; interval = refl; bytes = refl; size = refl }) x.shows;
        sound_heard = x.sound_heard;
        all = x.all;
      }
  set_tag-InStep lib (some tag) value charset plugin s came sound x = x

  -- However the data of a source come, and whatever calls of `mp3_set_tag` are made in between: from
  -- a state in step with the description of the stream, if no read fails and no call of
  -- `mp3_get_filter_meta` ends the source, the audio that the calls returned is what the description
  -- hears in the bytes that came, but for those that the code still stores, and the state is in step
  -- again.
  pub read_stream-InStep :
      (lib : TagLibrary) (calls : List SourceCall) (plugin : Plugin) (s : Mp3State)
      (came sound : Bytes)
      → All NoFailure calls
      → InStep s came d sound
      → (read_stream lib calls plugin s sound).2 ≡ true
      → InStep
          (read_stream lib calls plugin s sound).0
          (came ++ concat_bytes calls)
          d
          (read_stream lib calls plugin s sound).1
  unfolding read_stream
  read_stream-InStep lib [] plugin s came sound ok x run =
      subst (λ (b : Bytes). InStep s b d sound) (sym (append-nil came)) x
  read_stream-InStep lib (tagged tag value charset ∷ calls) plugin s came sound ok x run =
      let t = set_tag lib tag value charset plugin s in
      read_stream-InStep lib calls t.0 t.1 came sound ok.1
        (set_tag-InStep lib tag value charset plugin s came sound x) run
  read_stream-InStep lib (read r ∷ calls) plugin s came sound ok x run =
      let g = get_filter_meta (comments_of lib plugin) r s in
      let rest = read_stream lib calls plugin g.state (sound ++ stored g.buffer) in
      by_test
        (λ (y : Mp3State × Bytes × Bool).
          y.2 ≡ true → InStep y.0 (came ++ (bytes_of r ++ concat_bytes calls)) d y.1)
        g.running _ _
        (λ e run.
          subst (λ (b : Bytes). InStep rest.0 b d rest.1)
            (append_assoc came (bytes_of r) (concat_bytes calls))
            (read_stream-InStep lib calls plugin g.state (came ++ bytes_of r)
              (sound ++ stored g.buffer) ok.1
              (one_read (comments_of lib plugin) r s came sound ok.0 x e) run))
        (λ e run. cc) run
