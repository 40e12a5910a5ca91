-- ===== src/Verifier/Ends.antt =====
-- keylime/cloud_verifier_tornado.py, process_agent: that it returns.
use keylime.Prelude.{◌≡◌, ◌⊎◌, true, Option, some, List, arith}
use keylime.Failure.{Failure, is_failure}
use keylime.Failure.Highest.{IsBounded, IsConsistent}
use keylime.Verifier.{
  OperationalState, get_quote, provide_v, failed, Agent, Effect, Options, returned, process_again,
  Turn, worsen, after_failure, Ending, Moment,
}
use keylime.Verifier.Along.{Along}

-- the failure that an exception leaves is consistent and counts as one
module _ (o : Options) (bounded : IsBounded o.severities) where
  abbrev pub IsSound : Failure → Type 0
  IsSound f = IsConsistent o.severities f × (is_failure f ≡ true)

  -- a call that returns, or that goes on in one of two ways
  abbrev GoesOn : Turn → Type 0
  GoesOn t =
      (t.2 ≡ returned)
      ⊎ ((f : Failure) × (t.2 ≡ process_again failed f) × IsSound f)
      ⊎ ((f : Failure) × (t.2 ≡ process_again get_quote f)
          × (t.0.operational_state ≡ provide_v)
          × (f ≡ o.default_failure))

  after_failure-returned :
      (a : Agent) (moments : List Moment) (f : Failure) → (after_failure o a moments f).2 ≡ returned
  after_failure-returned a moments f = ground arith

  worsen-returned :
      (a : Agent) (new : OperationalState) (f : Failure) (label : _) (e : _)
      → (worsen o a new f label e).2 ≡ returned
  worsen-returned a new f label e = ground arith

  -- the failure with which a call of itself is made
  abbrev EndsIn : Ending → Type 0
  EndsIn returned = Unit
  EndsIn (process_again new f) = IsConsistent o.severities f

  Returns : Option (Agent × List Effect) → Type 0
  Returns m = (r : Agent × List Effect) × (m ≡ some r)
