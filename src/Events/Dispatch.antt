-- ===== src/Events/Dispatch.antt =====
-- What becomes of an event that `event_emit_clientevent` makes.
use icecast_server.Prelude.{
  ==_iff, length-append, append_assoc, append-nil, ◌<◌, ◌≡◌, refl, sym, ap, ◌∙◌, inl, inr, Bool,
  false, Option, List, [], ◌∷◌, ◌++◌, arith, ◌==◌, Bool-cases, ℕ,
}
use icecast_server.Events.Registered.{
  registrations, handlers_for, calls, chained, client_event-handled, client_event-Registered,
}
use icecast_server.Events.{
  length, Bytes, Registration, Event, Handled, Events, EventConfig, push, handle_event,
  client_event, emit, emit_clientevent,
}
use icecast_server.Events.Queue.{
  Action, run, rounds_of, Unstopped, Live, handle_events, run-Handles,
}

handle_events-append :
    (q : List Event) (e : Event) → handle_events (q ++ e ∷ []) ≡ handle_events q ++ handle_event e
handle_events-append [] e = append-nil (handle_event e)
handle_events-append (x ∷ q) e =
    ap (λ (y : List Handled). handle_event x ++ y) (handle_events-append q e)
    ∙ sym (append_assoc (handle_event x) (handle_events q) (handle_event e))

-- What the log has when the events of a state and one more are handled.
abbrev pub HandledAfter : List Action → Events → Events → List Handled → Type 0
HandledAfter acts s s' new =
    (extra : List Handled) × ((run acts s').log
      ≡ s.log ++ ((handle_events s.queue ++ new) ++ extra))

not_full : (n : ℕ) → n < 128 → (n == 128) ≡ false
not_full n h = ground arith

emit-handled :
    (e : Event) (acts : List Action) (s : Events)
    → Live s
    → Unstopped acts
    → length s.queue < 128
    → length s.queue < rounds_of acts
    → HandledAfter acts s (emit e s) (handle_event e)
emit-handled e acts s l u room enough =
    let live : Live (emit e s) =
      unfold emit in (record { running = l.running; thread = l.thread }) in
    let same : (emit e s).log ≡ s.log = unfold emit in refl in
    let queue : (emit e s).queue ≡ (s.queue ++ e ∷ []) ++ [] =
      unfold emit push in
      simp (not_full (length s.queue) room) (sym (append-nil (s.queue ++ e ∷ []))) in
    let (extra, log) =
      run-Handles acts (emit e s) (s.queue ++ e ∷ []) [] live u queue
        (rw (length-append s.queue (e ∷ [])) (omega (arith, enough))) in
    (
      extra,
      log
          ∙ ap (λ (x : List Handled). x ++ (handle_events (s.queue ++ e ∷ []) ++ extra)) same
          ∙ ap (λ (x : List Handled). s.log ++ (x ++ extra)) (handle_events-append s.queue e),
    )

no_registration :
    (e : Event) (t : Bytes) (lists : List (List Registration))
    → length lists ≡ 0
    → calls e (handlers_for t (chained lists)) ≡ []
no_registration e t [] h = refl
no_registration e t (rs ∷ lists) h = absurd (omega (arith, h))

module _ (fnmatch : Bytes → Bytes → Bool) where
  -- While the thread is not stopped and the queue has room, the handlers that a client's event leads
  -- to are those of the registrations for its trigger, in order: of the configuration, of the normal
  -- mount of the URI, of the first default mount that matches it. They are called once each, after the
  -- events that wait, within as many rounds as there are such events and one more, whatever else is
  -- emitted in between.
  pub emit_clientevent-handled :
      (config : EventConfig) (trigger : Bytes) (uri : Option Bytes) (acts : List Action)
      (s : Events)
      → Live s
      → Unstopped acts
      → length s.queue < 128
      → length s.queue < rounds_of acts
      → HandledAfter acts s (emit_clientevent fnmatch config trigger uri s) (
          calls
            (client_event fnmatch config trigger uri)
            (handlers_for trigger (registrations fnmatch config uri)))
  unfolding emit_clientevent
  emit_clientevent-handled config trigger uri acts s l u room enough =
      let e = client_event fnmatch config trigger uri in
      let called = client_event-handled fnmatch config trigger uri in
      let r = client_event-Registered fnmatch config trigger uri in
      let wanted = calls e (handlers_for trigger (registrations fnmatch config uri)) in
      elim (Bool-cases (length e.reglist == 0)) [
        | inl empty ↦
            let (extra, log) =
              run-Handles acts s s.queue [] l u (sym (append-nil s.queue))
                (omega (arith, enough)) in
            let nothing : wanted ≡ [] =
              ap (λ (x : List Registration). calls e (handlers_for trigger x)) (sym r.regs)
              ∙ no_registration e trigger e.reglist (((==_iff _ _).0) empty) in
            rw (empty, nothing, append-nil (handle_events s.queue)) (extra, log)
        | inr some_list ↦ rw some_list (
            let (extra, log) = emit-handled e acts s l u room enough in
            (
              extra,
              log
                  ∙ ap (λ (x : List Handled). s.log ++ ((handle_events s.queue ++ x) ++ extra))
                      called,
            ))
      ]
