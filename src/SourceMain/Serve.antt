-- ===== src/SourceMain/Serve.antt =====
-- Lemmas on `serve_clients`: the listeners of a source, in the loop of `source_main`.
use icecast_server.Prelude.{
  sym, refl, ◌+◌, inl, inr, true, false, Bool, Bool-cases, length, ◌∙◌, ℕ, List, [], ◌∷◌, ◌≡◌,
  arith,
}
use icecast_server.Stream.{Queue, Stream}
use icecast_server.Stream.Counts.{ids}
use icecast_server.Stream.Invariant.{IsStream}
use icecast_server.Stream.References.{IsStream-ext}
use icecast_server.Listener.{
  no_buffer, own, queued, Client, Env, BufferRef, release_ref, is_head, send_to_listener,
}
use icecast_server.Listener.Keeps.{
  with_ref, with_ref_comm, Fits, with_queue, release_ref-IsStream, ids-release_ref,
}
use icecast_server.Listener.Lagging.{send_to_listener-Served}
use icecast_server.SourceMain.{Serving, serve_clients}

-- The references of a list of clients, on top of others.
abbrev pub refs_with : (ℕ → ℕ) → List Client → ℕ → ℕ
refs_with base [] = base
refs_with base (c ∷ cs) = with_ref c.refbuf (refs_with base cs)

abbrev pub AllFit : List Client → Type 0
AllFit [] = Unit
AllFit (c ∷ cs) = Fits c.check_buffer c.refbuf × AllFit cs

-- No client refers to the head of the queue.
abbrev pub LeaveHead : List Client → Queue → Type 0
LeaveHead [] q = Unit
LeaveHead (c ∷ cs) q = (is_head c.refbuf q ≡ false) × LeaveHead cs q

pub with_ref-ext :
    (r : BufferRef) (f g : ℕ → ℕ)
    → ((x : ℕ) → f x ≡ g x)
    → (x : ℕ) → with_ref r f x ≡ with_ref r g x
with_ref-ext (queued p) f g e x = ground (arith, e x)
with_ref-ext (own n) f g e x = e x
with_ref-ext no_buffer f g e x = e x

-- One more reference may be counted first or last.
pub refs_with-with_ref :
    (base : ℕ → ℕ) (r : BufferRef) (cs : List Client) (x : ℕ)
    → with_ref r (refs_with base cs) x ≡ refs_with (with_ref r base) cs x
refs_with-with_ref base r [] x = refl
refs_with-with_ref base r (c ∷ cs) x =
    with_ref_comm (refs_with base cs) r c.refbuf x
    ∙ with_ref-ext c.refbuf _ _ (refs_with-with_ref base r cs) x

-- The head is known by its id alone.
is_head-ids : (r : BufferRef) (q q' : Queue) → ids q ≡ ids q' → is_head r q ≡ is_head r q'
is_head-ids no_buffer q q' e = refl
is_head-ids (own n) q q' e = refl
is_head-ids (queued p) [] [] e = refl
is_head-ids (queued p) [] (b ∷ q') e = cc
is_head-ids (queued p) (b ∷ q) [] e = cc
is_head-ids (queued p) (b ∷ q) (b' ∷ q') e = ground arith

-- What serving leaves: the queue, with the references of the clients that were kept.
pub record ServeInv (l : List ℕ) (base : ℕ → ℕ) (remove : Bool) (s : Stream) (cs : List Client)
    (r : Serving) : Type 0 where
  pub stream : IsStream (refs_with base r.kept) (with_queue s r.queue)
  pub same_ids : ids r.queue ≡ l
  pub fits : AllFit r.kept
  pub dropped : remove ≡ true → LeaveHead r.kept r.queue
  pub counted : length r.kept + r.removed ≡ length cs

pub serve_clients-ServeInv :
    (cs : List Client) (l : List ℕ) (base : ℕ → ℕ) (env : Env) (remove : Bool) (s : Stream)
    (short : Bool)
    → IsStream (refs_with base cs) s
    → AllFit cs
    → ids s.stream_data ≡ l
    → ServeInv l base remove s cs (serve_clients env remove s short cs)
unfolding serve_clients
serve_clients-ServeInv [] l base env remove s short v f e = record {
  stream = v;
  same_ids = e;
  fits = tt;
  dropped = λ _. tt;
  counted = omega arith;
}
serve_clients-ServeInv (c ∷ cs) l base env remove s short v f e =
    let r = send_to_listener env s c remove short in
    let (sent, lagging) =
      send_to_listener-Served l (refs_with base cs) env s c remove short
        (record { stream = v; fits = f.0; same_ids = e }) in
    let q = release_ref r.client.refbuf r.queue in
    let gone =
      serve_clients-ServeInv cs l base env remove (with_queue s q) r.short_delay
        (release_ref-IsStream (refs_with base cs) r.client.refbuf (with_queue s r.queue)
          sent.stream)
        f.1 (ids-release_ref r.client.refbuf r.queue ∙ sent.same_ids) in
    let later = serve_clients env remove (with_queue s r.queue) r.short_delay cs in
    let stays =
      serve_clients-ServeInv cs l (with_ref r.client.refbuf base) env remove (with_queue s r.queue)
        r.short_delay (IsStream-ext (refs_with-with_ref base r.client.refbuf cs) sent.stream) f.1
        sent.same_ids in
    elim (Bool-cases r.client.con_error) [
      | inl died ↦ simp died (record {
        stream = gone.stream;
        same_ids = gone.same_ids;
        fits = gone.fits;
        dropped = gone.dropped;
        counted = omega (arith, gone.counted);
      })
      | inr lives ↦ simp lives (record {
        stream =
            IsStream-ext (λ x. sym (refs_with-with_ref base r.client.refbuf later.kept x))
              stays.stream;
        same_ids = stays.same_ids;
        fits = (sent.fits, stays.fits);
        dropped = λ h. (
          moved_on r.client.refbuf r.queue _ r.client.con_error (sent.same_ids ∙ sym stays.same_ids)
              (lagging h) lives,
          stays.dropped h,
        );
        counted = omega (arith, stays.counted);
      })
    ]
  where
    moved_on :
        (b : BufferRef) (q q' : Queue) (died : Bool)
        → ids q ≡ ids q'
        → (is_head b q ≡ true → died ≡ true)
        → died ≡ false
        → is_head b q' ≡ false
    moved_on b q q' died same h alive = elim (Bool-cases (is_head b q)) [
      | inl e ↦ ground (arith, h e)
      | inr e ↦ sym (is_head-ids b q q' same) ∙ e
    ]
