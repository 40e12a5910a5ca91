-- ===== src/Verifier/Keeps.antt =====
-- keylime/cloud_verifier_tornado.py, process_agent: what its calls of itself keep of an agent.
use mathlib.Core.Path.{subst}
use keylime.Prelude.{some_inj, ℕ, zero, suc, ◌≡◌, refl, Option, none, some, List, [], ◌∷◌, All}
use keylime.Failure.{Failure}
use keylime.Verifier.{
  OperationalState, Agent, Effect, Options, Moment, Turn, Ending, returned, process_again, Done,
  finish, stop_at, interrupt, prepend, turn, proceed, process_agent,
}
use keylime.Verifier.Along.{at_most_trans, Keeps, Along, AlongTurn, turn-Along}

module _ (o : Options) where
  then-Keeps : {a b c : Agent} → Keeps o a b → Keeps o b c → Keeps o a c
  then-Keeps {a} {b} {c} h k = record {
    retries = λ r. k.retries (h.retries r);
    severity =
        at_most_trans a.severity_level b.severity_level c.severity_level h.severity k.severity;
  }

  proceed-Keeps :
      (call : Agent → OperationalState → Failure → Option (Agent × List Effect)) (a : Agent)
      (t : Done) (r : Agent × List Effect)
      → ((b : Agent) (new : OperationalState) (f : Failure) (q : Agent × List Effect)
          → call b new f ≡ some q
          → Keeps o b q.0)
      → Keeps o a t.0
      → proceed o call t ≡ some r
      → Keeps o a r.0
  proceed-Keeps call a (b, effects, returned) r ih h e =
      subst (λ (q : Agent × List Effect). Keeps o a q.0) (some_inj e) h
  proceed-Keeps call a (b, effects, process_again new f) r ih h e = through (call b new f) refl e
    where
      through :
          (m : Option (Agent × List Effect))
          → call b new f ≡ m
          → prepend o effects m ≡ some r
          → Keeps o a r.0
      through none same g = cc
      through (some q) same g =
          subst (λ (x : Agent × List Effect). Keeps o a x.0) (some_inj g)
            (then-Keeps h (ih b new f q same))

  finish-Keeps :
      (moments : List Moment) (a b : Agent) (ending : Ending)
      → Keeps o a b
      → Keeps o a (finish moments b ending).0
  finish-Keeps [] a b ending k = k
  finish-Keeps (m ∷ moments) a b ending k = finish-Keeps moments a b ending k

  stop_at-Keeps :
      (n : ℕ) (moments : List Moment) (a b : Agent) (f : Failure) (ending : Ending)
      → Keeps o a b
      → All (Along o a f) moments
      → Keeps o a (stop_at o n moments b ending).0
  stop_at-Keeps n [] a b f ending k h = k
  stop_at-Keeps zero (m ∷ moments) a b f ending k h = h.0.0
  stop_at-Keeps (suc n) (m ∷ moments) a b f ending k h = stop_at-Keeps n moments a b f ending k h.1

  interrupt-Keeps :
      (at : Option ℕ) (t : Turn) (a : Agent) (f : Failure)
      → AlongTurn o a f t
      → Keeps o a (interrupt o at t).0
  interrupt-Keeps none (b, moments, ending) a f h = finish-Keeps moments a b ending h.0
  interrupt-Keeps (some n) (b, moments, ending) a f h = stop_at-Keeps n moments a b f ending h.0 h.1

  -- However often process_agent calls itself, whatever it reads from the database and whichever of its
  -- effects raise, the number of retries does not pass the configured maximum if it was not above it
  -- before, and the severity level that is recorded for the agent is never lowered.
  pub process_agent-Keeps :
      (worlds : List (Option OperationalState × Option ℕ)) (a : Agent) (new : OperationalState)
      (f : Failure) (r : Agent × List Effect)
      → process_agent o worlds a new f ≡ some r
      → Keeps o a r.0
  unfolding process_agent
  process_agent-Keeps [] a new f r e = cc
  process_agent-Keeps (world ∷ worlds) a new f r e =
      proceed-Keeps (λ b new' f'. process_agent o worlds b new' f') a
        (interrupt o world.1 (turn o world.0 a new f)) r
        (λ b new' f' q h. process_agent-Keeps worlds b new' f' q h)
        (interrupt-Keeps world.1 (turn o world.0 a new f) a f (turn-Along o world.0 a new f)) e
