-- ===== src/Verifier.antt =====
-- keylime/cloud_verifier_tornado.py, process_agent: how the verifier goes on with an agent after a
-- quote, a lost connection or a failure. What it asks of the database, of tornado's loop and of the
-- notifiers is a list of effects, in their order. Intervals are whole numbers of seconds. The agent's
-- `pending_event` is whether a timer is recorded, which those of retries are not. Each effect stands
-- with the agent's dict and the failure as they are when it is asked for, since it may raise: the
-- handler of exceptions then adds an event to that failure and calls process_agent with that dict. A
-- SQLAlchemyError is not such an exception where the source catches it, in the query and in the
-- update of every agent. The fields that are deleted before an agent is dropped are reset: where the
-- update after it raises and the agent has been ended meanwhile, the source misses `pending_event`
-- and raises again.
pub mod Ends
pub mod Keeps
pub mod Stops
pub mod Timers
pub mod Response
pub mod Along
pub mod Cache
pub mod Identity
pub mod Notify
pub mod Requests
pub mod Versions
use keylime.Prelude.{
  ℕ, zero, suc, ◌+◌, ◌^◌, String, Bool, true, false, not, ◌&&◌, ◌||◌, Option, none, some, List, [],
  ◌∷◌, ◌++◌, ltb, leb, ◌==◌, if◌then◌else◌, nonempty, is_some,
}
use keylime.Failure.{SeverityLabel, Severities, Event, Failure, label_eq, add_event, is_failure}

-- keylime/common/states.py
pub data OperationalState : Type 0 where
  registered start saved get_quote get_quote_retry provide_v provide_v_retry failed terminated
        invalid_quote tenant_failed :
      OperationalState

abbrev pub state_code : OperationalState → ℕ
state_code registered = 0
state_code start = 1
state_code saved = 2
state_code get_quote = 3
state_code get_quote_retry = 4
state_code provide_v = 5
state_code provide_v_retry = 6
state_code failed = 7
state_code terminated = 8
state_code invalid_quote = 9
state_code tenant_failed = 10

abbrev pub is_state : OperationalState → OperationalState → Bool
is_state a b = state_code a == state_code b

-- keylime/common/retry.py
unfoldable pub retry_time : Bool → ℕ → ℕ → ℕ
retry_time exponential base ntries = if exponential && ltb 1 base then base ^ ntries else base

-- the fields of the agent's dict that process_agent reads or writes
pub record Agent : Type 0 where
  pub agent_id : String
  pub operational_state : OperationalState
  pub severity_level : Option ℕ
  pub last_event_id : Option String
  pub num_retries : ℕ
  pub pending_event : Bool
  pub attestation_count : ℕ
  -- whether there is a key V to provide
  pub has_v : Bool

pub data MsgType : Type 0 where
  revocation comm_error : MsgType

pub data Effect : Type 0 where
  remove_timeout delete_agent invoke_provide_v : Effect
  -- the query for the stored agent, and verifier_read_policy_from_cache
  load_agent load_policy : Effect
  update_db : Agent → Effect
  notify_error : MsgType → Option Event → Effect
  -- with the flag `need_pubkey`
  invoke_get_quote : Bool → Effect
  -- with the delay in seconds
  later_get_quote : ℕ → Bool → Effect
  later_provide_v : ℕ → Effect

-- the verifier's options, and what it has imported from keylime/failure.py
pub record Options : Type 0 where
  pub severities : Severities
  pub max_severity_label : SeverityLabel
  pub quote_interval : ℕ
  pub retry_interval : ℕ
  pub max_retries : ℕ
  pub exponential_backoff : Bool
  -- the default argument of process_agent
  pub default_failure : Failure

-- process_agent returns, or awaits itself
pub data Ending : Type 0 where
  returned : Ending
  process_again : OperationalState → Failure → Ending

-- an effect, with the agent and the failure when it is asked for
pub record Moment : Type 0 where
  pub agent : Agent
  pub failure : Failure
  pub effect : Effect

abbrev pub moment : Agent → Failure → Effect → Moment
moment a f e = record { agent = a; failure = f; effect = e }

-- one call of process_agent, as far as no effect raises
abbrev pub Turn : Type 0
Turn = Agent × List Moment × Ending

abbrev pub drop_timer : Agent → Failure → List Moment
drop_timer a f = if a.pending_event then moment a f remove_timeout ∷ [] else []

-- the update of the agent's row and the reading of its policy
abbrev pub propagate : Agent → Failure → List Moment
propagate a f = moment a f (update_db a) ∷ moment a f load_policy ∷ []

-- what a call comes to
abbrev pub Done : Type 0
Done = Agent × List Effect × Ending

abbrev pub then_done : Effect → Done → Done
then_done e (a, effects, ending) = (a, e ∷ effects, ending)

abbrev pub finish : List Moment → Agent → Ending → Done
finish [] a ending = (a, [], ending)
finish (m ∷ moments) a ending = then_done m.effect (finish moments a ending)

abbrev label_is : Option SeverityLabel → SeverityLabel → Bool
label_is none m = false
label_is (some l) m = label_eq l m

abbrev is_worse : Option ℕ → ℕ → Bool
is_worse none n = true
is_worse (some m) n = ltb m n

module _ (o : Options) where
  -- `not failure.recoverable or failure.highest_severity == MAX_SEVERITY_LABEL`
  abbrev pub stops_polling : Failure → Bool
  stops_polling f = not f.recoverable || label_is f.highest_severity o.max_severity_label

  -- the handler of exceptions
  abbrev pub handled : Failure → Ending
  handled f = process_again failed (add_event o.severities f "exception" false none)

  abbrev pub on_exception : Agent → List Moment → Failure → Turn
  on_exception a moments f = (a, moments, handled f)

  abbrev notify_invalid : Agent → OperationalState → Failure → Event → List Moment
  notify_invalid a invalid_quote f e = moment a f (notify_error revocation (some e)) ∷ []
  notify_invalid a _ f e = []

  abbrev after_failure : Agent → List Moment → Failure → Turn
  after_failure a moments f =
      if stops_polling f
      then (a, moments ++ propagate a f, returned)
      else (a, moments ++ propagate a f ++ moment a f (invoke_get_quote false) ∷ [], returned)

  -- the failure is worse than what has been seen of the agent
  abbrev worsen : Agent → OperationalState → Failure → SeverityLabel → Event → Turn
  worsen a new f label e =
      let marked : Agent = record a {
        severity_level = some label.severity;
        last_event_id = some e.event_id;
        operational_state = new;
      } in
      let dropped : Agent = record marked { num_retries = 0; pending_event = false } in
      if stops_polling f
      then after_failure dropped
          (notify_invalid marked new f e
            ++ drop_timer marked f
            ++ moment dropped f (update_db dropped) ∷ [])
          f
      else after_failure marked (notify_invalid marked new f e) f

  abbrev worsen_if : Agent → OperationalState → Failure → Option SeverityLabel → Option Event → Turn
  worsen_if a new f none event = on_exception a [] f
  worsen_if a new f (some label) event =
      if is_worse a.severity_level label.severity
      then elim event [ none ↦ on_exception a [] f | some e ↦ worsen a new f label e ]
      else after_failure a [] f

  -- the states FAILED and INVALID_QUOTE
  unfoldable pub on_failure : Agent → OperationalState → Failure → Turn
  on_failure a new f =
      if not (is_failure f)
      then on_exception a [] f
      else worsen_if a new f f.highest_severity f.highest_severity_event

  -- a quote that is asked for at once, or after the interval
  abbrev next_quote : Agent → Failure → Turn
  next_quote a f =
      let b : Agent = record a { num_retries = 0; operational_state = get_quote } in
      if o.quote_interval == 0
      then (b, propagate a f ++ moment b f (invoke_get_quote false) ∷ [], returned)
      else (
        record b { pending_event = true },
        propagate a f ++ moment b f (later_get_quote o.quote_interval false) ∷ [],
        returned,
      )

  abbrev retry_quote : Agent → Failure → Turn
  retry_quote a f =
      if leb o.max_retries a.num_retries
      then (let f' = add_event o.severities f "not_reachable" false none in
          (
            a,
            propagate a f
                ++ (if ltb 0 a.attestation_count
                    then moment a f' (notify_error comm_error f'.highest_severity_event) ∷ []
                    else []),
            process_again failed f',
          ))
      else (let b : Agent = record a {
        operational_state = get_quote;
        num_retries = a.num_retries + 1;
      } in
          (
            b,
            propagate a f
                ++ moment b f (
                    later_get_quote
                      (retry_time o.exponential_backoff o.retry_interval (a.num_retries + 1)) true)
                  ∷ [],
            returned,
          ))

  abbrev retry_provide_v : Agent → Failure → Turn
  retry_provide_v a f =
      if leb o.max_retries a.num_retries
      then (let f' = add_event o.severities f "not_reachable_v" false none in
          (
            a,
            propagate a f ++ moment a f' (notify_error comm_error f'.highest_severity_event) ∷ [],
            process_again failed f',
          ))
      else (let b : Agent = record a {
        operational_state = provide_v;
        num_retries = a.num_retries + 1;
      } in
          (
            b,
            propagate a f
                ++ moment b f (
                    later_provide_v
                      (retry_time o.exponential_backoff o.retry_interval (a.num_retries + 1)))
                  ∷ [],
            returned,
          ))

  -- invoke_provide_v forgets a recorded timer.
  abbrev deploy_v : Agent → Failure → Turn
  deploy_v a f =
      let b : Agent = record a { num_retries = 0; operational_state = provide_v } in
      if a.has_v
      then (
        record b { pending_event = false },
        propagate a f ++ moment b f invoke_provide_v ∷ [],
        returned,
      )
      else (b, propagate a f, process_again get_quote o.default_failure)

  -- the transitions, from the agent's own state `main` to the new one
  abbrev fall_out : Agent → Failure → Turn
  fall_out a f = on_exception a (propagate a f) f

  unfoldable pub transition : Agent → OperationalState → OperationalState → Failure → Turn
  unfolding on_failure retry_time
  transition a main failed f = on_failure a failed f
  transition a main invalid_quote f = on_failure a invalid_quote f
  transition a main get_quote f =
      if is_state start main
      then (
        record a { num_retries = 0; operational_state = get_quote },
        propagate a f
            ++ moment (record a { num_retries = 0; operational_state = get_quote }) f
                (invoke_get_quote true)
              ∷ [],
        returned,
      )
      else if is_state provide_v main || is_state get_quote main
      then next_quote a f
      else fall_out a f
  transition a main provide_v f = if is_state get_quote main then deploy_v a f else fall_out a f
  transition a main get_quote_retry f =
      if is_state get_quote main then retry_quote a f else fall_out a f
  transition a main provide_v_retry f =
      if is_state provide_v main then retry_provide_v a f else fall_out a f
  transition a main _ f = fall_out a f

  -- one call of process_agent, given the state of the agent in the database: `none` if the agent is
  -- not there or the query fails
  unfoldable pub turn : Option OperationalState → Agent → OperationalState → Failure → Turn
  unfolding transition
  turn none a new f = (a, moment a f load_agent ∷ drop_timer a f, returned)
  turn (some terminated) a new f =
      (a, moment a f load_agent ∷ drop_timer a f ++ moment a f delete_agent ∷ [], returned)
  turn (some tenant_failed) a new f = (a, moment a f load_agent ∷ drop_timer a f, returned)
  turn (some stored) a new f =
      let t = transition a a.operational_state new f in (t.0, moment a f load_agent ∷ t.1, t.2)

  -- a call in which the effect at the position raises
  abbrev pub stop_at : ℕ → List Moment → Agent → Ending → Done
  stop_at n [] a ending = (a, [], ending)
  stop_at zero (m ∷ moments) a ending = (m.agent, [], handled m.failure)
  stop_at (suc n) (m ∷ moments) a ending = then_done m.effect (stop_at n moments a ending)

  abbrev pub interrupt : Option ℕ → Turn → Done
  interrupt none (a, moments, ending) = finish moments a ending
  interrupt (some n) (a, moments, ending) = stop_at n moments a ending

  abbrev prepend : List Effect → Option (Agent × List Effect) → Option (Agent × List Effect)
  prepend effects none = none
  prepend effects (some (a, more)) = some (a, effects ++ more)

  abbrev pub proceed :
      (Agent → OperationalState → Failure → Option (Agent × List Effect))
      → Done
      → Option (Agent × List Effect)
  proceed call (a, effects, returned) = some (a, effects)
  proceed call (a, effects, process_again new f) = prepend effects (call a new f)

  -- process_agent with the calls of itself, at most as many as the list has entries: the state that a
  -- call reads from the database, and the position of the effect that raises in it, if one does
  unfoldable pub process_agent :
      List (Option OperationalState × Option ℕ)
      → Agent
      → OperationalState
      → Failure
      → Option (Agent × List Effect)
  unfolding turn
  process_agent [] a new f = none
  process_agent (world ∷ worlds) a new f =
      proceed (λ b new' f'. process_agent worlds b new' f')
        (interrupt world.1 (turn world.0 a new f))
