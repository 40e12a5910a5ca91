-- ===== src/Verifier/Along.antt =====
-- keylime/cloud_verifier_tornado.py, process_agent: the agent and the failure at each effect of one call.
use keylime.Prelude.{
  ℕ, ◌≤◌, ◌+◌, ◌≡◌, refl, ◌⊎◌, inl, inr, Bool, true, false, not, ◌||◌, Option, none, some, List, [],
  ◌∷◌, ◌++◌, arith, leb, ltb, ◌==◌, if◌then◌else◌, Bool-cases, String, All, All-append,
}
use keylime.Failure.{SeverityLabel, Event, Failure, is_failure, add_event}
use keylime.Verifier.{
  OperationalState, registered, start, saved, get_quote, get_quote_retry, provide_v,
  provide_v_retry, failed, terminated, invalid_quote, tenant_failed, Agent, Effect, Options, Moment,
  moment, drop_timer, propagate, remove_timeout, update_db, invoke_get_quote, invoke_provide_v,
  later_get_quote, later_provide_v, retry_time, notify_error, comm_error, notify_invalid,
  stops_polling, Turn, on_failure, worsen, worsen_if, after_failure, is_worse, is_state, deploy_v,
  next_quote, retry_quote, retry_provide_v, fall_out, transition, turn, load_agent, delete_agent,
}

-- a severity level that is not lower
abbrev pub at_most : Option ℕ → Option ℕ → Bool
at_most none m = true
at_most (some k) none = false
at_most (some k) (some m) = leb k m

pub at_most_refl : (m : Option ℕ) → at_most m m ≡ true
at_most_refl none = refl
at_most_refl (some k) = ground arith

pub at_most_trans :
    (k l m : Option ℕ) → at_most k l ≡ true → at_most l m ≡ true → at_most k m ≡ true
at_most_trans none l m h j = refl
at_most_trans (some k) none m h j = cc
at_most_trans (some k) (some l) none h j = cc
at_most_trans (some k) (some l) (some m) h j = ground arith

is_worse-at_most : (m : Option ℕ) (n : ℕ) → is_worse m n ≡ true → at_most m (some n) ≡ true
is_worse-at_most none n h = refl
is_worse-at_most (some m) n h = ground arith

module _ (o : Options) where
  -- the two properties of an agent that a call keeps
  pub record Keeps (a b : Agent) : Type 0 where
    pub retries : a.num_retries ≤ o.max_retries → b.num_retries ≤ o.max_retries
    pub severity : at_most a.severity_level b.severity_level ≡ true

  pub Keeps-refl : (a : Agent) → Keeps a a
  Keeps-refl a = record { retries = λ h. h; severity = at_most_refl a.severity_level }

  -- at an effect of a call with the agent and the failure, the latter has at most one event more
  abbrev pub Along : Agent → Failure → Moment → Type 0
  Along a f m =
      Keeps a m.agent
      × ((m.failure ≡ f) ⊎ ((id : String) × (m.failure ≡ add_event o.severities f id false none)))

  abbrev pub AlongTurn : Agent → Failure → Turn → Type 0
  AlongTurn a f t = Keeps a t.0 × All (Along a f) t.1

  drop_timer-Along : (a b : Agent) (f : Failure) → Keeps a b → All (Along a f) (drop_timer b f)
  drop_timer-Along a b f k = go b.pending_event
    where
      go : (c : Bool) → All (Along a f) (if c then moment b f remove_timeout ∷ [] else [])
      go true = ((k, inl refl), tt)
      go false = tt

  propagate-Along : (a b : Agent) (f : Failure) → Keeps a b → All (Along a f) (propagate b f)
  propagate-Along a b f k = ((k, inl refl), ((k, inl refl), tt))

  notify_invalid-Along :
      (a b : Agent) (new : OperationalState) (f : Failure) (e : Event)
      → Keeps a b
      → All (Along a f) (notify_invalid o b new f e)
  notify_invalid-Along a b invalid_quote f e k = ((k, inl refl), tt)
  notify_invalid-Along a b registered f e k = tt
  notify_invalid-Along a b start f e k = tt
  notify_invalid-Along a b saved f e k = tt
  notify_invalid-Along a b get_quote f e k = tt
  notify_invalid-Along a b get_quote_retry f e k = tt
  notify_invalid-Along a b provide_v f e k = tt
  notify_invalid-Along a b provide_v_retry f e k = tt
  notify_invalid-Along a b failed f e k = tt
  notify_invalid-Along a b terminated f e k = tt
  notify_invalid-Along a b tenant_failed f e k = tt

  either_Along :
      (b : Bool) (a : Agent) (f : Failure) (t u : Turn)
      → AlongTurn a f t
      → AlongTurn a f u
      → AlongTurn a f (if b then t else u)
  either_Along true a f t u h k = h
  either_Along false a f t u h k = k

  after_failure-Along :
      (a b : Agent) (moments : List Moment) (f : Failure)
      → Keeps a b
      → All (Along a f) moments
      → AlongTurn a f (after_failure o b moments f)
  after_failure-Along a b moments f k h =
      let told = All-append (Along a f) moments (propagate b f) h (propagate-Along a b f k) in
      either_Along (stops_polling o f) a f _ _ (k, told)
        (
          k,
          All-append (Along a f) (moments ++ propagate b f)
              (moment b f (invoke_get_quote false) ∷ []) told ((k, inl refl), tt),
        )

  worsen-Along :
      (a : Agent) (new : OperationalState) (f : Failure) (label : SeverityLabel) (e : Event)
      → is_worse a.severity_level label.severity ≡ true
      → AlongTurn a f (worsen o a new f label e)
  worsen-Along a new f label e h =
      let marked : Agent = record a {
        severity_level = some label.severity;
        last_event_id = some e.event_id;
        operational_state = new;
      } in
      let dropped : Agent = record marked { num_retries = 0; pending_event = false } in
      let m : Keeps a marked = record {
        retries = λ r. r;
        severity = is_worse-at_most a.severity_level label.severity h;
      } in
      let d : Keeps a dropped = record {
        retries = λ r. omega arith;
        severity = is_worse-at_most a.severity_level label.severity h;
      } in
      let told = notify_invalid-Along a marked new f e m in
      either_Along (stops_polling o f) a f _ _
        (after_failure-Along a dropped _ f d (
          All-append (Along a f) (notify_invalid o marked new f e ++ drop_timer marked f)
            (moment dropped f (update_db dropped) ∷ [])
            (All-append (Along a f) (notify_invalid o marked new f e) (drop_timer marked f) told
              (drop_timer-Along a marked f m))
            ((d, inl refl), tt)))
        (after_failure-Along a marked _ f m told)

  worsen_if-Along :
      (a : Agent) (new : OperationalState) (f : Failure) (label : Option SeverityLabel)
      (event : Option Event)
      → AlongTurn a f (worsen_if o a new f label event)
  worsen_if-Along a new f none event = (Keeps-refl a, tt)
  worsen_if-Along a new f (some label) none =
      either_Along (is_worse a.severity_level label.severity) a f _ _ (Keeps-refl a, tt)
        (after_failure-Along a a [] f (Keeps-refl a) tt)
  worsen_if-Along a new f (some label) (some e) =
      elim (Bool-cases (is_worse a.severity_level label.severity)) [
        | inl h ↦ rw h (worsen-Along a new f label e h)
        | inr h ↦ rw h (after_failure-Along a a [] f (Keeps-refl a) tt)
      ]

  on_failure-Along :
      (a : Agent) (new : OperationalState) (f : Failure) → AlongTurn a f (on_failure o a new f)
  unfolding on_failure
  on_failure-Along a new f =
      either_Along (not (is_failure f)) a f _ _ (Keeps-refl a, tt)
        (worsen_if-Along a new f f.highest_severity f.highest_severity_event)

  moved-Keeps :
      (a b : Agent)
      → b.num_retries ≤ o.max_retries
      → b.severity_level ≡ a.severity_level
      → Keeps a b
  moved-Keeps a b h e = record { retries = λ r. h; severity = rw e (at_most_refl a.severity_level) }

  fall_out-Along : (a : Agent) (f : Failure) → AlongTurn a f (fall_out o a f)
  fall_out-Along a f = (Keeps-refl a, propagate-Along a a f (Keeps-refl a))

  -- one effect after the update of the agent's row
  then-Along :
      (a b : Agent) (f g : Failure) (e : Effect)
      → Keeps a b
      → (g ≡ f) ⊎ ((id : String) × (g ≡ add_event o.severities f id false none))
      → All (Along a f) (propagate a f ++ moment b g e ∷ [])
  then-Along a b f g e k h = ((Keeps-refl a, inl refl), ((Keeps-refl a, inl refl), ((k, h), tt)))

  retry_quote-Along : (a : Agent) (f : Failure) → AlongTurn a f (retry_quote o a f)
  retry_quote-Along a f =
      let lost : Failure = add_event o.severities f "not_reachable" false none in
      let b : Agent = record a { operational_state = get_quote; num_retries = a.num_retries + 1 } in
      let wait : Effect =
        later_get_quote (retry_time o.exponential_backoff o.retry_interval (a.num_retries + 1))
          true in
      elim (Bool-cases (leb o.max_retries a.num_retries)) [
        | inl e ↦ rw e (
          Keeps-refl a,
          elim (Bool-cases (ltb 0 a.attestation_count)) [
            | inl n ↦ rw n (
                then-Along a a f lost (notify_error comm_error lost.highest_severity_event)
                  (Keeps-refl a) (inr ("not_reachable", refl)))
            | inr n ↦ rw n (propagate-Along a a f (Keeps-refl a))
          ],
        )
        | inr e ↦
            let k : Keeps a b = moved-Keeps a b (ground (arith, e)) refl in
            rw e (k, then-Along a b f f wait k (inl refl))
      ]

  retry_provide_v-Along : (a : Agent) (f : Failure) → AlongTurn a f (retry_provide_v o a f)
  retry_provide_v-Along a f =
      let lost : Failure = add_event o.severities f "not_reachable_v" false none in
      let b : Agent = record a { operational_state = provide_v; num_retries = a.num_retries + 1 } in
      let wait : Effect =
        later_provide_v (retry_time o.exponential_backoff o.retry_interval (a.num_retries + 1)) in
      elim (Bool-cases (leb o.max_retries a.num_retries)) [
        | inl e ↦ rw e (
          Keeps-refl a,
          then-Along a a f lost (notify_error comm_error lost.highest_severity_event) (Keeps-refl a)
              (inr ("not_reachable_v", refl)),
        )
        | inr e ↦
            let k : Keeps a b = moved-Keeps a b (ground (arith, e)) refl in
            rw e (k, then-Along a b f f wait k (inl refl))
      ]

  next_quote-Along : (a : Agent) (f : Failure) → AlongTurn a f (next_quote o a f)
  next_quote-Along a f =
      let b : Agent = record a { num_retries = 0; operational_state = get_quote } in
      let k : Keeps a b = moved-Keeps a b (omega arith) refl in
      either_Along (o.quote_interval == 0) a f _ _
        (k, then-Along a b f f (invoke_get_quote false) k (inl refl))
        (
          moved-Keeps a (record b { pending_event = true }) (omega arith) refl,
          then-Along a b f f (later_get_quote o.quote_interval false) k (inl refl),
        )

  deploy_v-Along : (a : Agent) (f : Failure) → AlongTurn a f (deploy_v o a f)
  deploy_v-Along a f =
      let b : Agent = record a { num_retries = 0; operational_state = provide_v } in
      let k : Keeps a b = moved-Keeps a b (omega arith) refl in
      either_Along a.has_v a f _ _
        (
          moved-Keeps a (record b { pending_event = false }) (omega arith) refl,
          then-Along a b f f invoke_provide_v k (inl refl),
        )
        (k, propagate-Along a a f (Keeps-refl a))

  transition-Along :
      (a : Agent) (main new : OperationalState) (f : Failure)
      → AlongTurn a f (transition o a main new f)
  unfolding transition
  transition-Along a main failed f = on_failure-Along a failed f
  transition-Along a main invalid_quote f = on_failure-Along a invalid_quote f
  transition-Along a main get_quote f =
      let b : Agent = record a { num_retries = 0; operational_state = get_quote } in
      let k : Keeps a b = moved-Keeps a b (omega arith) refl in
      either_Along (is_state start main) a f _ _
        (k, then-Along a b f f (invoke_get_quote true) k (inl refl))
        (either_Along (is_state provide_v main || is_state get_quote main) a f _ _
          (next_quote-Along a f) (fall_out-Along a f))
  transition-Along a main provide_v f =
      either_Along (is_state get_quote main) a f _ _ (deploy_v-Along a f) (fall_out-Along a f)
  transition-Along a main get_quote_retry f =
      either_Along (is_state get_quote main) a f _ _ (retry_quote-Along a f) (fall_out-Along a f)
  transition-Along a main provide_v_retry f =
      either_Along (is_state provide_v main) a f _ _ (retry_provide_v-Along a f)
        (fall_out-Along a f)
  transition-Along a main registered f = fall_out-Along a f
  transition-Along a main start f = fall_out-Along a f
  transition-Along a main saved f = fall_out-Along a f
  transition-Along a main terminated f = fall_out-Along a f
  transition-Along a main tenant_failed f = fall_out-Along a f

  loaded-Along :
      (a : Agent) (new : OperationalState) (f : Failure)
      → AlongTurn a f (
          let t = transition o a a.operational_state new f in
          (t.0, moment a f load_agent ∷ t.1, t.2))
  loaded-Along a new f =
      let h = transition-Along a a.operational_state new f in (h.0, ((Keeps-refl a, inl refl), h.1))

  pub turn-Along :
      (stored : Option OperationalState) (a : Agent) (new : OperationalState) (f : Failure)
      → AlongTurn a f (turn o stored a new f)
  unfolding turn
  turn-Along none a new f =
      (Keeps-refl a, ((Keeps-refl a, inl refl), drop_timer-Along a a f (Keeps-refl a)))
  turn-Along (some terminated) a new f = (
    Keeps-refl a,
    (
      (Keeps-refl a, inl refl),
      All-append (Along a f) (drop_timer a f) (moment a f delete_agent ∷ [])
          (drop_timer-Along a a f (Keeps-refl a)) ((Keeps-refl a, inl refl), tt),
    ),
  )
  turn-Along (some tenant_failed) a new f =
      (Keeps-refl a, ((Keeps-refl a, inl refl), drop_timer-Along a a f (Keeps-refl a)))
  turn-Along (some registered) a new f = loaded-Along a new f
  turn-Along (some start) a new f = loaded-Along a new f
  turn-Along (some saved) a new f = loaded-Along a new f
  turn-Along (some get_quote) a new f = loaded-Along a new f
  turn-Along (some get_quote_retry) a new f = loaded-Along a new f
  turn-Along (some provide_v) a new f = loaded-Along a new f
  turn-Along (some provide_v_retry) a new f = loaded-Along a new f
  turn-Along (some failed) a new f = loaded-Along a new f
  turn-Along (some invalid_quote) a new f = loaded-Along a new f
