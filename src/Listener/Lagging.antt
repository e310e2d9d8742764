-- ===== src/Listener/Lagging.antt =====
-- `send_to_listener` of src/source.c and the listeners at the head of the queue.
use icecast_server.Prelude.{
  ℕ, zero, suc, ◌+◌, Bool, true, ◌&&◌, ◌≡◌, refl, arith, List, [], ◌∷◌, ltb, ◌==◌, inl, inr,
  Bool-cases,
}
use icecast_server.Stream.{Stream}
use icecast_server.Listener.Types.{Client, Env, Sent, accepts, blocks, breaks}
use icecast_server.Listener.Checks.{ref_len, check}
use icecast_server.Listener.Keeps.{Served, with_queue}
use icecast_server.Listener.Checked.{same_buffer-Served, check-Served}
use icecast_server.Listener.Send.{
  write_to_client, Sending, check_time, send_loop, is_head, drop_lagging, send_to_listener,
}

-- A write changes no buffer and no check.
write_to_client-stays :
    (sock : List Sent) (c : Client) (len : ℕ)
    → (let r = write_to_client sock c len in
        (r.0.refbuf ≡ c.refbuf) × (r.0.check_buffer ≡ c.check_buffer))
unfolding write_to_client
write_to_client-stays [] c len = (refl, refl)
write_to_client-stays (accepts n ∷ rest) c len = (refl, refl)
write_to_client-stays (blocks ∷ rest) c len = (refl, refl)
write_to_client-stays (breaks ∷ rest) c len = (refl, refl)

check_time-stays :
    (env : Env) (c : Client)
    → ((check_time env c).refbuf ≡ c.refbuf) × ((check_time env c).check_buffer ≡ c.check_buffer)
check_time-stays env c = ground arith

module _ (l : List ℕ) (others : ℕ → ℕ) where
  stays-Served :
      (s : Stream) (c c' : Client)
      → (c'.refbuf ≡ c.refbuf) × (c'.check_buffer ≡ c.check_buffer)
      → Served l others s c
      → Served l others s c'
  stays-Served s c c' e v = same_buffer-Served l others s c v c' e.0 (rw (e.0, e.1) v.fits)

  abbrev pub SendServed : Stream → Sending → Type 0
  SendServed s r = Served l others (with_queue s r.queue) r.client

  send_loop-Served :
      (loop : ℕ) (env : Env) (s : Stream) (c : Client) (total : ℕ) (short : Bool)
      → Served l others s c
      → SendServed s (send_loop loop env s c total short)
  unfolding send_loop
  send_loop-Served zero env s c total short v =
      let timed = stays-Served s c (check_time env c) (check_time-stays env c) v in
      elim (Bool-cases (check_time env c).con_error) [ inl e ↦ rw e timed | inr e ↦ rw e timed ]
  send_loop-Served (suc loop) env s c total short v =
      let c' = check_time env c in
      let timed = stays-Served s c c' (check_time-stays env c) v in
      let r = check c'.check_buffer env s c' in
      let checked = check-Served l others env s c' timed c'.check_buffer refl in
      let w = write_to_client r.client.socket r.client (ref_len r.client.refbuf r.queue) in
      let written =
        stays-Served (with_queue s r.queue) r.client w.0
          (write_to_client-stays r.client.socket r.client (ref_len r.client.refbuf r.queue))
          checked in
      elim (Bool-cases c'.con_error) [
        | inl e ↦ simp e timed
        | inr e ↦ elim (Bool-cases (ltb 20000 total)) [
          | inl l ↦ simp (e, l) timed
          | inr l ↦ elim (Bool-cases r.ready) [
            | inr n ↦ simp (e, l, n) checked
            | inl n ↦ elim (Bool-cases (w.1 == 0)) [
              | inl z ↦ simp (e, l, n, z) written
              | inr z ↦
                  simp (e, l, n, z)
                    (send_loop-Served loop env (with_queue s r.queue) w.0 (total + w.1) short
                      written)
            ]
          ]
        ]
      ]

  drop_lagging-Served :
      (s : Stream) (d : Bool) (r : Sending)
      → SendServed s r
      → (let t = drop_lagging d r in
          SendServed s t
          × (d ≡ true → is_head t.client.refbuf t.queue ≡ true → t.client.con_error ≡ true))
  unfolding drop_lagging
  drop_lagging-Served s d r v = elim (Bool-cases (d && is_head r.client.refbuf r.queue)) [
    | inl e ↦
        simp e (record { stream = v.stream; fits = v.fits; same_ids = v.same_ids }, λ _ _. refl)
    | inr e ↦ simp e (v, λ p h. ground arith)
  ]

  -- After `send_to_listener` the queue is well formed, with the client's reference wherever it got to;
  -- and if the head is about to be deleted, a client that still refers to it has its error flag set.
  pub send_to_listener-Served :
      (env : Env) (s : Stream) (c : Client) (deletion_expected short : Bool)
      → Served l others s c
      → (let r = send_to_listener env s c deletion_expected short in
          SendServed s r
          × (deletion_expected ≡ true
              → is_head r.client.refbuf r.queue ≡ true
              → r.client.con_error ≡ true))
  unfolding send_to_listener
  send_to_listener-Served env s c d short v =
      drop_lagging-Served s d (send_loop 10 env s c 0 short) (send_loop-Served 10 env s c 0 short v)
