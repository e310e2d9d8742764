-- ===== src/Listener/Checked.antt =====
-- The `check_buffer` functions of src/format.c and the well-formedness of the queue.
use icecast_server.Prelude.{
  ◌∙◌, List, ℕ, ◌≡◌, ◌≢◌, refl, subst, [], ◌∷◌, Option, none, some, ◌==◌, inl, inr, Bool-cases,
}
use icecast_server.Stream.Counts.{Holds}
use icecast_server.Stream.Invariant.{IsStream}
use icecast_server.Stream.{Queue, Stream}
use icecast_server.Listener.Places.{next_of-Holds}
use icecast_server.Listener.Types.{
  CheckBuffer, check_http, check_file, advance_queue, BufferRef, no_buffer, own, queued, Client,
  Env, set_queue, refbuf_size,
}
use icecast_server.Listener.Checks.{
  get_file_data, fresh_buffer, ref_len, overwrite, intro_ended, check_intro, next_of, check,
  check_headers_sent, prepare_headers, check_http_buffer, check_file_buffer, advance_from,
  check_advance_queue,
}
use icecast_server.Listener.Keeps.{
  ids-set_queue, with_ref, Fits, set_queue-IsStream, Served, with_queue, CheckServed,
  find_client_start-Served,
}

-- A buffer that is not the queue's is overwritten in place.
overwrite-stays :
    (r : BufferRef) (n : ℕ) (q : Queue) (k : CheckBuffer)
    → k ≢ advance_queue
    → Fits k r
    → ((overwrite r n q).1 ≡ q)
      × Fits k (overwrite r n q).0
      × ((others : ℕ → ℕ) → with_ref (overwrite r n q).0 others ≡ with_ref r others)
unfolding overwrite
overwrite-stays no_buffer n q k h f = (refl, f, λ o. refl)
overwrite-stays (own m) n q k h f = (refl, tt, λ o. refl)
overwrite-stays (queued p) n q k h f = absurd (h f)

Fits-swap : (a b : CheckBuffer) (r : BufferRef) → a ≢ advance_queue → Fits a r → Fits b r
Fits-swap a b no_buffer h f = tt
Fits-swap a b (own n) h f = tt
Fits-swap a b (queued p) h f = absurd (h f)

module _ (l : List ℕ) (others : ℕ → ℕ) (s : Stream) (c : Client) (v : Served l others s c) where
  -- Any change of the client but of its buffer, to a check that fits it.
  pub same_buffer-Served :
      (c' : Client) → c'.refbuf ≡ c.refbuf → Fits c'.check_buffer c'.refbuf → Served l others s c'
  same_buffer-Served c' e f = record { stream = rw e v.stream; fits = f; same_ids = v.same_ids }

  overwritten-Served :
      (n : ℕ) (c' : Client)
      → c.check_buffer ≢ advance_queue
      → c'.refbuf ≡ (overwrite c.refbuf n s.stream_data).0
      → Served l others (with_queue s (overwrite c.refbuf n s.stream_data).1) c'
  overwritten-Served n c' k e =
      let stays = overwrite-stays c.refbuf n s.stream_data c.check_buffer k v.fits in
      record {
        stream = rw (e, stays.2 others, stays.0) v.stream;
        fits = rw e (Fits-swap c.check_buffer c'.check_buffer _ k stays.1);
        same_ids = rw stays.0 v.same_ids;
      }

  intro_ended-Served :
      (q : Queue) → c.check_buffer ≢ advance_queue → CheckServed l others s (intro_ended q s c)
  unfolding intro_ended
  intro_ended-Served [] k = record { stream = v.stream; fits = v.fits; same_ids = v.same_ids }
  intro_ended-Served (b ∷ q) k =
      let (c', q') = set_queue no_buffer c s.stream_data in
      find_client_start-Served l others (with_queue s q') c' (record {
        stream = set_queue-IsStream others no_buffer c s tt v.stream;
        fits = tt;
        same_ids = ids-set_queue no_buffer c s.stream_data ∙ v.same_ids;
      })

  check_intro-Served :
      (env : Env) → c.check_buffer ≢ advance_queue → CheckServed l others s (check_intro env s c)
  unfolding check_intro
  check_intro-Served env k = elim (Bool-cases (c.pos == ref_len c.refbuf s.stream_data)) [
    | inr e ↦ rw e v
    | inl e ↦ elim (Bool-cases (get_file_data env c == 0)) [
      | inl z ↦ rw (e, z) (intro_ended-Served s.stream_data k)
      | inr z ↦ rw (e, z) (overwritten-Served (get_file_data env c) _ k refl)
    ]
  ]

  check_headers_sent-Served :
      c.check_buffer ≢ advance_queue → CheckServed l others s (check_headers_sent s c)
  unfolding check_headers_sent
  check_headers_sent-Served k = elim (Bool-cases (c.pos == ref_len c.refbuf s.stream_data)) [
    | inr e ↦ rw e v
    | inl e ↦ rw e (overwritten-Served refbuf_size _ k refl)
  ]

  advance_from-Served :
      (o : Option ℕ) (len : ℕ)
      → c.check_buffer ≡ advance_queue
      → ((p : ℕ) → o ≡ some p → Holds p s.stream_data)
      → CheckServed l others s (advance_from o c s.stream_data len)
  unfolding advance_from
  advance_from-Served none len k h = elim (Bool-cases (c.pos == len)) [
    | inl e ↦ rw e v
    | inr e ↦ rw e v
  ]
  advance_from-Served (some p) len k h = elim (Bool-cases (c.pos == len)) [
    | inr e ↦ rw e v
    | inl e ↦ rw e (record {
      stream = set_queue-IsStream others (queued p) c s (h p refl) v.stream;
      fits = unfold set_queue in k;
      same_ids = ids-set_queue (queued p) c s.stream_data ∙ v.same_ids;
    })
  ]

module _ (l : List ℕ) (others : ℕ → ℕ) (env : Env) (s : Stream) (c : Client)
    (v : Served l others s c) where
  prepare_headers-Served :
      (o : Option ℕ)
      → c.check_buffer ≢ advance_queue
      → CheckServed l others s (prepare_headers o s c)
  unfolding prepare_headers
  prepare_headers-Served none k = same_buffer-Served l others s c v _ refl v.fits
  prepare_headers-Served (some n) k =
      check_headers_sent-Served l others _ _ (overwritten-Served l others s c v n _ k refl) k

  check_http_buffer-Served :
      (r : BufferRef)
      → c.check_buffer ≢ advance_queue
      → CheckServed l others s (check_http_buffer r env s c)
  unfolding check_http_buffer
  check_http_buffer-Served no_buffer k = v
  check_http_buffer-Served (own n) k = elim (Bool-cases (c.respcode == 0)) [
    | inl e ↦ rw e (prepare_headers-Served env.headers k)
    | inr e ↦ rw e (check_headers_sent-Served l others s c v k)
  ]
  check_http_buffer-Served (queued p) k = elim (Bool-cases (c.respcode == 0)) [
    | inl e ↦ rw e (prepare_headers-Served env.headers k)
    | inr e ↦ rw e (check_headers_sent-Served l others s c v k)
  ]

  check_file_buffer-Served :
      (r : BufferRef)
      → c.refbuf ≡ r
      → c.check_buffer ≢ advance_queue
      → CheckServed l others s (check_file_buffer r env s c)
  unfolding check_file_buffer
  check_file_buffer-Served no_buffer e k = elim (Bool-cases env.has_client) [
    | inl f ↦ simp f (find_client_start-Served l others s c v)
    | inr f ↦ simp f (
        check_intro-Served l others s (fresh_buffer c)
          (record {
            stream = subst (λ r. IsStream (with_ref r others) s) e v.stream;
            fits = tt;
            same_ids = v.same_ids;
          })
          env k)
  ]
  check_file_buffer-Served (own n) e k = check_intro-Served l others s c v env k
  check_file_buffer-Served (queued p) e k = check_intro-Served l others s c v env k

  check_advance_queue-Served :
      (r : BufferRef)
      → c.check_buffer ≡ advance_queue
      → CheckServed l others s (check_advance_queue r s c)
  unfolding check_advance_queue
  check_advance_queue-Served no_buffer k = v
  check_advance_queue-Served (own n) k =
      advance_from-Served l others s c v none n k (λ p e. absurd (cc))
  check_advance_queue-Served (queued p) k =
      advance_from-Served l others s c v (next_of p s.stream_data) _ k
        (next_of-Holds s.stream_data p)

  -- Whatever a client's `check_buffer` does, the queue stays well formed, with the client's reference.
  pub check-Served :
      (k : CheckBuffer) → c.check_buffer ≡ k → CheckServed l others s (check k env s c)
  unfolding check
  check-Served check_http e = check_http_buffer-Served c.refbuf (cc)
  check-Served check_file e = check_file_buffer-Served c.refbuf refl (cc)
  check-Served advance_queue e = check_advance_queue-Served c.refbuf e
