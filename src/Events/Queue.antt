-- ===== src/Events/Queue.antt =====
-- The queue of events between the emitters and the event thread of src/event.c.
use icecast_server.Prelude.{
  ℕ, suc, ◌≤◌, ◌≡◌, refl, sym, ap, ◌∙◌, inl, inr, true, List, [], ◌∷◌, ◌++◌, arith, ◌==◌,
  Bool-cases, length, append_assoc, append-nil, length-append, by_test,
}
use icecast_server.Events.{Event, Handled, Events, push, handle_event, thread_round, emit, stop}

-- What may happen, in any order.
pub data Action : Type 0 where
  emits : Event → Action
  round stops : Action

abbrev pub act : Action → Events → Events
act (emits e) s = emit e s
act round s = thread_round s
act stops s = stop s

-- The actions in order.
abbrev pub run : List Action → Events → Events
run [] s = s
run (a ∷ rest) s = run rest (act a s)

abbrev pub rounds_of : List Action → ℕ
rounds_of [] = 0
rounds_of (round ∷ rest) = suc (rounds_of rest)
rounds_of (emits e ∷ rest) = rounds_of rest
rounds_of (stops ∷ rest) = rounds_of rest

abbrev pub Unstopped : List Action → Type 0
Unstopped [] = Unit
Unstopped (stops ∷ rest) = ⊥
Unstopped (emits e ∷ rest) = Unstopped rest
Unstopped (round ∷ rest) = Unstopped rest

abbrev pub handle_events : List Event → List Handled
handle_events [] = []
handle_events (e ∷ es) = handle_event e ++ handle_events es

push-within : (q : List Event) (e : Event) → length q ≤ 128 → length (push q e) ≤ 128
unfolding push
push-within q e h = ground (arith, h, length-append q (e ∷ []))

thread_round-within :
    (s : Events) (q : List Event)
    → s.queue ≡ q
    → length q ≤ 128
    → length (thread_round s).queue ≤ 128
unfolding thread_round
thread_round-within s [] e h =
    by_test (λ (x : Events). length x.queue ≤ 128) s.thread _ _ (λ t. simp e h) (λ t. simp e h)
thread_round-within s (x ∷ q) e h =
    by_test (λ (y : Events). length y.queue ≤ 128) s.thread _ _ (λ t. simp e (omega (arith, h)))
      (λ t. simp e h)

-- Whatever is emitted, handled or stopped in whatever order, a queue of at most 128 events never holds
-- more.
pub run-within :
    (acts : List Action) (s : Events) → length s.queue ≤ 128 → length (run acts s).queue ≤ 128
run-within [] s h = h
run-within (emits e ∷ acts) s h =
    run-within acts (emit e s) (unfold emit in push-within s.queue e h)
run-within (stops ∷ acts) s h =
    run-within acts (stop s) (
      unfold stop in by_test (λ (x : Events). length x.queue ≤ 128) s.running _ _ (λ e. h) (λ e. h))
run-within (round ∷ acts) s h =
    run-within acts (thread_round s) (thread_round-within s s.queue refl h)

-- The event thread runs, and nobody has stopped it.
pub record Live (s : Events) : Type 0 where
  pub running : s.running ≡ true
  pub thread : s.thread ≡ true

push-front :
    (q rest : List Event) (e : Event) → (rest' : List Event) × (push (q ++ rest) e ≡ q ++ rest')
unfolding push
push-front q rest e = elim (Bool-cases (length (q ++ rest) == 128)) [
  | inl full ↦ (rest, rw full refl)
  | inr room ↦ (rest ++ e ∷ [], rw room (append_assoc q rest (e ∷ [])))
]

-- A round on a queue.
round_takes :
    (s : Events) (e : Event) (q : List Event)
    → Live s
    → s.queue ≡ e ∷ q
    → thread_round s ≡ record s { queue = q; thread = true; log = s.log ++ handle_event e }
unfolding thread_round
round_takes s e q l h = simp (l.thread, h, l.running) refl

round_idle :
    (s : Events)
    → Live s
    → s.queue ≡ []
    → Live (thread_round s) × ((thread_round s).log ≡ s.log) × ((thread_round s).queue ≡ [])
unfolding thread_round
round_idle s l h =
    simp (l.thread, h, l.running) (record { running = refl; thread = refl }, refl, refl)

abbrev pub Handles : List Action → Events → List Event → Type 0
Handles acts s q = (extra : List Handled) × ((run acts s).log ≡ s.log ++ (handle_events q ++ extra))

-- While the thread is not stopped, the events that wait are handled in order, each after as many
-- rounds as there are events before it and one more, however many others are emitted in between.
pub run-Handles :
    (acts : List Action) (s : Events) (q rest : List Event)
    → Live s
    → Unstopped acts
    → s.queue ≡ q ++ rest
    → length q ≤ rounds_of acts
    → Handles acts s q
run-Handles [] s [] rest l u h n = ([], sym (append-nil s.log))
run-Handles [] s (e ∷ q) rest l u h n = absurd (omega arith)
run-Handles (stops ∷ acts) s q rest l u h n = absurd u
run-Handles (emits e ∷ acts) s q rest l u h n =
    let (rest', p) = push-front q rest e in
    let h' : (emit e s).queue ≡ q ++ rest' =
      unfold emit in (ap (λ (x : List Event). push x e) h ∙ p) in
    let live : Live (emit e s) =
      unfold emit in (record { running = l.running; thread = l.thread }) in
    let same : (emit e s).log ≡ s.log = unfold emit in refl in
    let (extra, log) = run-Handles acts (emit e s) q rest' live u h' n in
    (extra, log ∙ ap (λ (x : List Handled). x ++ (handle_events q ++ extra)) same)
run-Handles (round ∷ acts) s (e ∷ q) rest l u h n =
    let taken = round_takes s e (q ++ rest) l h in
    let s' = record s { queue = q ++ rest; thread = true; log = s.log ++ handle_event e } in
    let (extra, log) =
      run-Handles acts s' q rest (record { running = l.running; thread = refl }) u refl
        (omega arith) in
    (
      extra,
      ap (λ (x : Events). (run acts x).log) taken
          ∙ log
          ∙ append_assoc s.log (handle_event e) (handle_events q ++ extra)
          ∙ ap (λ (x : List Handled). s.log ++ x)
              (sym (append_assoc (handle_event e) (handle_events q) extra)),
    )
run-Handles (round ∷ acts) s [] [] l u h n =
    let (live, same, empty) = round_idle s l h in
    let (extra, log) = run-Handles acts (thread_round s) [] [] live u empty (omega arith) in
    (extra, log ∙ ap (λ (x : List Handled). x ++ extra) same)
run-Handles (round ∷ acts) s [] (e ∷ rest) l u h n =
    let taken = round_takes s e rest l h in
    let s' = record s { queue = rest; thread = true; log = s.log ++ handle_event e } in
    let (extra, log) =
      run-Handles acts s' [] rest (record { running = l.running; thread = refl }) u refl
        (omega arith) in
    (
      handle_event e ++ extra,
      ap (λ (x : Events). (run acts x).log) taken ∙ log ∙ append_assoc s.log (handle_event e) extra,
    )
