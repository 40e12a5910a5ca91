-- ===== src/Verifier/Stops.antt =====
-- keylime/cloud_verifier_tornado.py, process_agent: when polling stops.
use mathlib.Core.Path.{subst}
use keylime.Prelude.{
  ap, ℕ, not, ◌&&◌, ◌≡◌, refl, sym, ◌∙◌, ◌⊎◌, inl, inr, Bool, true, false, ◌||◌, Option, none, some,
  List, [], ◌∷◌, ◌++◌, arith, if◌then◌else◌, Bool-cases, any_of,
}
use keylime.Failure.{SeverityLabel, Event, Failure, is_failure}
use keylime.Failure.Highest.{IsConsistent}
use keylime.Failure.Truth.{failure_has_highest}
use keylime.Verifier.{
  OperationalState, registered, start, saved, get_quote, get_quote_retry, provide_v,
  provide_v_retry, failed, terminated, invalid_quote, tenant_failed, Agent, Effect, delete_agent,
  update_db, Options, returned, process_again, Turn, on_failure, worsen, worsen_if, after_failure,
  drop_timer, notify_invalid, is_worse, proceed, transition, turn, process_agent, stops_polling,
  Ending, Moment, moment, propagate, Done, finish,
}
use keylime.Verifier.Timers.{
  any_of-append, timer_at-append, polls-drop_timer, timer_at-drop_timer, any_of-finish,
  timer_after-finish, deletes, deletes_at, is_ended, is_new_high, is_terminated, polls, polls_at,
  timer_after, timer_at,
}

module _ (o : Options) where
  -- a call that returns, has the agent contacted no more, and cancels the recorded timer if so
  abbrev Quiet : Bool → Bool → Turn → Type 0
  Quiet pending cancels t =
      (t.2 ≡ returned)
      × (any_of polls_at t.1 ≡ false)
      × (timer_at pending t.1 ≡ (pending && not cancels))

  after_failure-Quiet :
      (pending cancels : Bool) (a : Agent) (moments : List Moment) (f : Failure)
      → stops_polling o f ≡ true
      → any_of polls_at moments ≡ false
      → timer_at pending moments ≡ (pending && not cancels)
      → Quiet pending cancels (after_failure o a moments f)
  after_failure-Quiet pending cancels a moments f h e k = rw h (
    refl,
    any_of-append moments (propagate a f) ∙ rw e refl,
    timer_at-append pending moments (propagate a f) ∙ k,
  )

  polls-notify_invalid :
      (a : Agent) (new : OperationalState) (f : Failure) (e : Event)
      → any_of polls_at (notify_invalid o a new f e) ≡ false
  polls-notify_invalid a new f e = ground arith

  timer_at-notify_invalid :
      (b : Bool) (a : Agent) (new : OperationalState) (f : Failure) (e : Event)
      → timer_at b (notify_invalid o a new f e) ≡ b
  timer_at-notify_invalid b a new f e = ground arith

  taken-Quiet :
      (pending cancels b : Bool) (t u : Turn)
      → b ≡ true
      → Quiet pending cancels t
      → Quiet pending cancels (if b then t else u)
  taken-Quiet pending cancels true t u h q = q
  taken-Quiet pending cancels false t u h q = cc

  worsen-Quiet :
      (a : Agent) (new : OperationalState) (f : Failure) (label : SeverityLabel) (e : Event)
      → stops_polling o f ≡ true
      → Quiet a.pending_event true (worsen o a new f label e)
  worsen-Quiet a new f label e h =
      let marked : Agent = record a {
        severity_level = some label.severity;
        last_event_id = some e.event_id;
        operational_state = new;
      } in
      let dropped : Agent = record marked { num_retries = 0; pending_event = false } in
      let told = notify_invalid o marked new f e in
      let cancelled = drop_timer marked f in
      let last = moment dropped f (update_db dropped) ∷ [] in
      taken-Quiet a.pending_event true (stops_polling o f) _ _ h (
        after_failure-Quiet a.pending_event true dropped (told ++ cancelled ++ last) f h
          (any_of-append (told ++ cancelled) last
            ∙ rw
                (
                  any_of-append told cancelled,
                  polls-notify_invalid marked new f e,
                  polls-drop_timer marked f,
                )
                refl)
          (timer_at-append a.pending_event (told ++ cancelled) last
            ∙ timer_at-append a.pending_event told cancelled
            ∙ ap (λ (b : Bool). timer_at b cancelled)
                (timer_at-notify_invalid a.pending_event marked new f e)
            ∙ timer_at-drop_timer marked f
            ∙ ground arith))

  worsen_if-Quiet :
      (a : Agent) (new : OperationalState) (f : Failure) (label : Option SeverityLabel)
      (event : Option Event) {l : SeverityLabel} {e : Event}
      → label ≡ some l
      → event ≡ some e
      → stops_polling o f ≡ true
      → Quiet a.pending_event (is_new_high a.severity_level label) (worsen_if o a new f label event)
  worsen_if-Quiet a new f none event h k s = cc
  worsen_if-Quiet a new f (some l) none h k s = cc
  worsen_if-Quiet a new f (some l) (some e) h k s =
      elim (Bool-cases (is_worse a.severity_level l.severity)) [
        | inl w ↦ rw w (worsen-Quiet a new f l e s)
        | inr w ↦ rw w (after_failure-Quiet a.pending_event false a [] f s refl (ground arith))
      ]

  on_failure-Quiet :
      (a : Agent) (new : OperationalState) (f : Failure)
      → IsConsistent o.severities f
      → is_failure f ≡ true
      → stops_polling o f ≡ true
      → Quiet a.pending_event
          (is_new_high a.severity_level f.highest_severity)
          (on_failure o a new f)
  unfolding on_failure
  on_failure-Quiet a new f h t s =
      let (e, event, label, raised) = failure_has_highest o.severities f h t in
      rw t (worsen_if-Quiet a new f f.highest_severity f.highest_severity_event label event s)

  in_transition :
      (pending cancels : Bool) (a : Agent) (main new : OperationalState) (f : Failure)
      → Quiet pending cancels (on_failure o a new f)
      → (new ≡ failed) ⊎ (new ≡ invalid_quote)
      → Quiet pending cancels (transition o a main new f)
  unfolding transition
  in_transition pending cancels a main new f q (inl n) =
      subst
        (λ (x : OperationalState).
          Quiet pending cancels (on_failure o a x f)
          → Quiet pending cancels (transition o a main x f))
        (sym n) (λ r. r) q
  in_transition pending cancels a main new f q (inr n) =
      subst
        (λ (x : OperationalState).
          Quiet pending cancels (on_failure o a x f)
          → Quiet pending cancels (transition o a main x f))
        (sym n) (λ r. r) q

  -- a call that finds the agent ended
  ended-Quiet :
      (stored : Option OperationalState) (a : Agent) (new : OperationalState) (f : Failure)
      → is_ended stored ≡ true
      → Quiet a.pending_event true (turn o stored a new f)
        × (any_of deletes_at (turn o stored a new f).1 ≡ is_terminated stored)
  unfolding turn
  ended-Quiet none a new f h =
      ((refl, polls-drop_timer a f, timer_at-drop_timer a f ∙ ground arith), ground arith)
  ended-Quiet (some terminated) a new f h =
      let deleted = moment a f delete_agent ∷ [] in
      (
        (
          refl,
          any_of-append (drop_timer a f) deleted ∙ rw (polls-drop_timer a f) refl,
          timer_at-append a.pending_event (drop_timer a f) deleted
              ∙ timer_at-drop_timer a f
              ∙ ground arith,
        ),
        ground arith,
      )
  ended-Quiet (some tenant_failed) a new f h =
      ((refl, polls-drop_timer a f, timer_at-drop_timer a f ∙ ground arith), ground arith)
  ended-Quiet (some registered) a new f h = cc
  ended-Quiet (some start) a new f h = cc
  ended-Quiet (some saved) a new f h = cc
  ended-Quiet (some get_quote) a new f h = cc
  ended-Quiet (some get_quote_retry) a new f h = cc
  ended-Quiet (some provide_v) a new f h = cc
  ended-Quiet (some provide_v_retry) a new f h = cc
  ended-Quiet (some failed) a new f h = cc
  ended-Quiet (some invalid_quote) a new f h = cc

  turn-Quiet :
      (stored : Option OperationalState) (cancels : Bool) (a : Agent) (new : OperationalState)
      (f : Failure)
      → Quiet a.pending_event cancels (on_failure o a new f)
      → (new ≡ failed) ⊎ (new ≡ invalid_quote)
      → Quiet a.pending_event (is_ended stored || cancels) (turn o stored a new f)
  unfolding turn
  turn-Quiet none c a new f q n = (ended-Quiet none a new f refl).0
  turn-Quiet (some terminated) c a new f q n = (ended-Quiet (some terminated) a new f refl).0
  turn-Quiet (some tenant_failed) c a new f q n = (ended-Quiet (some tenant_failed) a new f refl).0
  turn-Quiet (some registered) c a new f q n =
      in_transition a.pending_event c a a.operational_state new f q n
  turn-Quiet (some start) c a new f q n =
      in_transition a.pending_event c a a.operational_state new f q n
  turn-Quiet (some saved) c a new f q n =
      in_transition a.pending_event c a a.operational_state new f q n
  turn-Quiet (some get_quote) c a new f q n =
      in_transition a.pending_event c a a.operational_state new f q n
  turn-Quiet (some get_quote_retry) c a new f q n =
      in_transition a.pending_event c a a.operational_state new f q n
  turn-Quiet (some provide_v) c a new f q n =
      in_transition a.pending_event c a a.operational_state new f q n
  turn-Quiet (some provide_v_retry) c a new f q n =
      in_transition a.pending_event c a a.operational_state new f q n
  turn-Quiet (some failed) c a new f q n =
      in_transition a.pending_event c a a.operational_state new f q n
  turn-Quiet (some invalid_quote) c a new f q n =
      in_transition a.pending_event c a a.operational_state new f q n

  finish-ending :
      (moments : List Moment) (a : Agent) (ending : Ending) → (finish moments a ending).2 ≡ ending
  finish-ending [] a ending = refl
  finish-ending (m ∷ moments) a ending = finish-ending moments a ending

  proceed_returned :
      (call : Agent → OperationalState → Failure → Option (Agent × List Effect)) (u : Done)
      → u.2 ≡ returned
      → proceed o call u ≡ some (u.0, u.1)
  proceed_returned call (a, effects, returned) h = refl
  proceed_returned call (a, effects, process_again new f) h = cc

  clear_call :
      (stored : Option OperationalState) (worlds : List (Option OperationalState × Option ℕ))
      (a : Agent) (new : OperationalState) (f : Failure) (pending cancels : Bool)
      → Quiet pending cancels (turn o stored a new f)
      → (r : Agent × List Effect) × (process_agent o ((stored, none) ∷ worlds) a new f ≡ some r)
        × (any_of polls r.1 ≡ false)
        × (timer_after pending r.1 ≡ (pending && not cancels))
        × (any_of deletes r.1 ≡ any_of deletes_at (turn o stored a new f).1)
  unfolding process_agent
  clear_call stored worlds a new f pending cancels q =
      let t = turn o stored a new f in
      let u = finish t.1 t.0 t.2 in
      (
        (u.0, u.1),
        proceed_returned (λ b new' f'. process_agent o worlds b new' f') u
            (finish-ending t.1 t.0 t.2 ∙ q.0),
        any_of-finish polls t.1 t.0 t.2 ∙ q.1,
        timer_after-finish pending t.1 t.0 t.2 ∙ q.2,
        any_of-finish deletes t.1 t.0 t.2,
      )

  -- A consistent failure that is irrecoverable, or whose severity is the highest that the verifier
  -- has imported, ends the polling, in a call in which no effect raises: process_agent returns without
  -- a call of itself and asks for no quote and provides no key, neither at once nor later. The timer
  -- that is recorded for the agent is cancelled if the failure is worse than what is recorded of the
  -- agent, or if the agent has been ended, and only then.
  pub stopping_failure_ends_polling :
      (stored : Option OperationalState) (worlds : List (Option OperationalState × Option ℕ))
      (a : Agent) (new : OperationalState) (f : Failure)
      → (new ≡ failed) ⊎ (new ≡ invalid_quote)
      → IsConsistent o.severities f
      → is_failure f ≡ true
      → stops_polling o f ≡ true
      → (r : Agent × List Effect) × (process_agent o ((stored, none) ∷ worlds) a new f ≡ some r)
        × (any_of polls r.1 ≡ false)
        × (timer_after a.pending_event r.1 ≡ (
            a.pending_event
            && not (is_ended stored || is_new_high a.severity_level f.highest_severity)))
  stopping_failure_ends_polling stored worlds a new f n h t s =
      let (r, e, quiet, timer, deleted) =
        clear_call stored worlds a new f a.pending_event
          (is_ended stored || is_new_high a.severity_level f.highest_severity)
          (turn-Quiet stored (is_new_high a.severity_level f.highest_severity) a new f
            (on_failure-Quiet a new f h t s) n) in
      (r, e, quiet, timer)

  -- An agent that is not in the database, that its user terminated, or whose tenant's check of the
  -- quote failed is not contacted again by a call in which no effect raises, whatever state it is in,
  -- and the timer that is recorded for it is cancelled; a terminated one is deleted.
  pub ended_agent_ends_polling :
      (stored : Option OperationalState) (worlds : List (Option OperationalState × Option ℕ))
      (a : Agent) (new : OperationalState) (f : Failure)
      → is_ended stored ≡ true
      → (r : Agent × List Effect) × (process_agent o ((stored, none) ∷ worlds) a new f ≡ some r)
        × (any_of polls r.1 ≡ false)
        × (timer_after a.pending_event r.1 ≡ false)
        × (any_of deletes r.1 ≡ is_terminated stored)
  ended_agent_ends_polling stored worlds a new f h =
      let (q, d) = ended-Quiet stored a new f h in
      let (r, e, quiet, timer, deleted) = clear_call stored worlds a new f a.pending_event true q in
      (r, e, quiet, timer ∙ ground arith, deleted ∙ d)
