-- ===== src/Verifier/Timers.antt =====
-- keylime/cloud_verifier_tornado.py, process_agent: which effects have an agent contacted, and whether a timer is recorded after them.
use keylime.Prelude.{
  ap, ℕ, ◌≡◌, refl, Bool, true, false, ◌||◌, Option, none, some, List, [], ◌∷◌, ◌++◌, arith,
  if◌then◌else◌, any_of,
}
use keylime.Failure.{SeverityLabel, Failure}
use keylime.Verifier.{
  OperationalState, terminated, tenant_failed, Agent, Effect, delete_agent, invoke_provide_v,
  invoke_get_quote, later_get_quote, later_provide_v, drop_timer, is_worse, Ending, Moment, moment,
  remove_timeout, finish,
}

-- the effect has the agent contacted, at once or later
abbrev pub polls : Effect → Bool
polls (invoke_get_quote need_pubkey) = true
polls (later_get_quote seconds need_pubkey) = true
polls invoke_provide_v = true
polls (later_provide_v seconds) = true
polls _ = false

abbrev pub polls_at : Moment → Bool
polls_at m = polls m.effect

-- whether a timer is recorded after an effect, and after some
abbrev armed : Bool → Effect → Bool
armed b remove_timeout = false
armed b (later_get_quote seconds need_pubkey) = true
armed b (later_provide_v seconds) = true
armed b _ = b

abbrev pub timer_after : Bool → List Effect → Bool
timer_after b [] = b
timer_after b (e ∷ effects) = timer_after (armed b e) effects

abbrev pub timer_at : Bool → List Moment → Bool
timer_at b [] = b
timer_at b (m ∷ moments) = timer_at (armed b m.effect) moments

pub any_of-append :
    (xs ys : List Moment) → any_of polls_at (xs ++ ys) ≡ (any_of polls_at xs || any_of polls_at ys)
any_of-append [] ys = refl
any_of-append (x ∷ xs) ys = ground (arith, any_of-append xs ys)

pub timer_at-append :
    (b : Bool) (xs ys : List Moment) → timer_at b (xs ++ ys) ≡ timer_at (timer_at b xs) ys
timer_at-append b [] ys = refl
timer_at-append b (x ∷ xs) ys = timer_at-append (armed b x.effect) xs ys

pub polls-drop_timer : (a : Agent) (f : Failure) → any_of polls_at (drop_timer a f) ≡ false
polls-drop_timer a f = ground arith

-- the recorded timer is cancelled
pub timer_at-drop_timer :
    (a : Agent) (f : Failure) → timer_at a.pending_event (drop_timer a f) ≡ false
timer_at-drop_timer a f = go a.pending_event
  where
    go : (b : Bool) → timer_at b (if b then moment a f remove_timeout ∷ [] else []) ≡ false
    go true = refl
    go false = refl

abbrev pub deletes : Effect → Bool
deletes delete_agent = true
deletes _ = false

abbrev pub deletes_at : Moment → Bool
deletes_at m = deletes m.effect

pub any_of-finish :
    (p : Effect → Bool) (moments : List Moment) (a : Agent) (ending : Ending)
    → any_of p (finish moments a ending).1 ≡ any_of (λ (m : Moment). p m.effect) moments
any_of-finish p [] a ending = refl
any_of-finish p (m ∷ moments) a ending = ap (◌||◌ (p m.effect)) (any_of-finish p moments a ending)

pub timer_after-finish :
    (b : Bool) (moments : List Moment) (a : Agent) (ending : Ending)
    → timer_after b (finish moments a ending).1 ≡ timer_at b moments
timer_after-finish b [] a ending = refl
timer_after-finish b (m ∷ moments) a ending = timer_after-finish (armed b m.effect) moments a ending

-- the failure is worse than what is recorded of the agent
abbrev pub is_new_high : Option ℕ → Option SeverityLabel → Bool
is_new_high level none = false
is_new_high level (some label) = is_worse level label.severity

-- states of the database in which an agent is handled: it is there, and has not been given up
abbrev pub is_ended : Option OperationalState → Bool
is_ended none = true
is_ended (some terminated) = true
is_ended (some tenant_failed) = true
is_ended (some _) = false

abbrev pub is_terminated : Option OperationalState → Bool
is_terminated (some terminated) = true
is_terminated _ = false
