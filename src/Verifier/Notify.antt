-- ===== src/Verifier/Notify.antt =====
-- keylime/cloud_verifier_tornado.py, notify_error: who is notified of a failure. `prepared` is whether
-- prepare_error returns, and `makes_context` whether web_util.generate_agent_tls_context does for a
-- certificate. The calls of invoke_notify_error are awaited after the loop, so an exception in it
-- leaves none of them. The two other notifiers only start threads. `rows` is what the query gives.
use keylime.Prelude.{
  ◌≡◌, refl, ap, ◌∙◌, String, Bool, true, false, not, ◌&&◌, ◌||◌, Option, none, some, List, [], ◌∷◌,
  ◌++◌, arith, str_eq, eq_iff, elem_str, if◌then◌else◌, nonempty, map, any_of,
}

pub record NotifiedAgent : Type 0 where
  pub agent_id : String
  -- empty if there is none
  pub mtls_cert : String

pub data Notice : Type 0 where
  webhook zeromq : Notice
  to_agent : NotifiedAgent → Notice

abbrev uses_tls : NotifiedAgent → Bool
uses_tls a = not (str_eq a.mtls_cert "") && not (str_eq a.mtls_cert "disabled")

module _ (makes_context : String → Bool) where
  abbrev pub lacks_context : NotifiedAgent → Bool
  lacks_context a = uses_tls a && not (makes_context a.mtls_cert)

  abbrev taken : Bool → NotifiedAgent → Option (List NotifiedAgent) → Option (List NotifiedAgent)
  taken true a rest = none
  taken false a none = none
  taken false a (some rest) = some (a ∷ rest)

  -- The loop over the verifier's rows rebinds `agent`, and appends the call outside the test for the
  -- failed agent.
  abbrev notified : NotifiedAgent → List NotifiedAgent → Option (List NotifiedAgent)
  notified a [] = some []
  notified a (row ∷ rows) =
      let same = str_eq row.agent_id a.agent_id in
      let next = if same then a else row in
      taken (not same && lacks_context row) next (notified next rows)

  abbrev after_loop : List Notice → Option (List NotifiedAgent) → List Notice × Bool
  after_loop first none = (first, false)
  after_loop first (some agents) = (first ++ map to_agent agents, true)

  abbrev first_notices : List String → List Notice
  first_notices notifiers =
      (if elem_str "webhook" notifiers then webhook ∷ [] else [])
      ++ (if elem_str "zeromq" notifiers then zeromq ∷ [] else [])

  -- the notices, and whether it returns
  unfoldable pub notify_error :
      Bool → List String → NotifiedAgent → List NotifiedAgent → List Notice × Bool
  notify_error prepared notifiers failing rows =
      if not (nonempty notifiers)
      then ([], true)
      else if not prepared
      then ([], false)
      else if elem_str "agent" notifiers
      then after_loop (first_notices notifiers) (notified failing rows)
      else (first_notices notifiers, true)

  -- the rows of a loop that is left by an exception, or the agents of one that is not
  abbrev NotifiedRows : List NotifiedAgent → Option (List NotifiedAgent) → Type 0
  NotifiedRows rows none = any_of lacks_context rows ≡ true
  NotifiedRows rows (some agents) =
      map (λ (a : NotifiedAgent). a.agent_id) agents ≡ map (λ (a : NotifiedAgent). a.agent_id) rows

  taken-NotifiedRows :
      (same : Bool) (a row : NotifiedAgent) (rows : List NotifiedAgent)
      (rest : Option (List NotifiedAgent))
      → str_eq row.agent_id a.agent_id ≡ same
      → NotifiedRows rows rest
      → NotifiedRows
          (row ∷ rows)
          (taken (not same && lacks_context row) (if same then a else row) rest)
  taken-NotifiedRows true a row rows none e h = ground (arith, h)
  taken-NotifiedRows true a row rows (some agents) e h =
      rw (h, (eq_iff row.agent_id a.agent_id).0 e) refl
  taken-NotifiedRows false a row rows rest e h = by_context (lacks_context row) refl rest h
    where
      by_context :
          (b : Bool)
          → lacks_context row ≡ b
          → (rest : Option (List NotifiedAgent)) → NotifiedRows rows rest
          → NotifiedRows (row ∷ rows) (taken b row rest)
      by_context true l rest h = rw l refl
      by_context false l none h = rw (l, h) refl
      by_context false l (some agents) h = ap (◌∷◌ row.agent_id) h

  notified-NotifiedRows :
      (a : NotifiedAgent) (rows : List NotifiedAgent) → NotifiedRows rows (notified a rows)
  notified-NotifiedRows a [] = refl
  notified-NotifiedRows a (row ∷ rows) =
      let same = str_eq row.agent_id a.agent_id in
      taken-NotifiedRows same a row rows (notified (if same then a else row) rows) refl
        (notified-NotifiedRows (if same then a else row) rows)

abbrev pub notified_ids : List Notice → List String
notified_ids [] = []
notified_ids (to_agent a ∷ notices) = a.agent_id ∷ notified_ids notices
notified_ids (_ ∷ notices) = notified_ids notices

abbrev pub is_webhook : Notice → Bool
is_webhook webhook = true
is_webhook _ = false

abbrev pub is_zeromq : Notice → Bool
is_zeromq zeromq = true
is_zeromq _ = false

notified_ids-map :
    (agents : List NotifiedAgent)
    → notified_ids (map to_agent agents) ≡ map (λ (a : NotifiedAgent). a.agent_id) agents
notified_ids-map [] = refl
notified_ids-map (a ∷ agents) = ap (◌∷◌ a.agent_id) (notified_ids-map agents)

any_of-to_agent :
    (p : Notice → Bool) (agents : List NotifiedAgent)
    → ((a : NotifiedAgent) → p (to_agent a) ≡ false)
    → any_of p (map to_agent agents) ≡ false
any_of-to_agent p [] h = refl
any_of-to_agent p (a ∷ agents) h = rw (h a) (any_of-to_agent p agents h)

module _ (makes_context : String → Bool) where
  abbrev pub Notified : Bool → Bool → Bool → Bool → List NotifiedAgent → List Notice × Bool → Type 0
  Notified prepared w z g rows out =
      (notified_ids out.0
        ≡ (if g && out.1 then map (λ (a : NotifiedAgent). a.agent_id) rows else []))
      × (any_of is_webhook out.0 ≡ (w && prepared))
      × (any_of is_zeromq out.0 ≡ (z && prepared))
      × ((out.1 || (not prepared || (g && any_of (lacks_context makes_context) rows))) ≡ true)

  abbrev started : Bool → Bool → List Notice
  started w z = (if w then webhook ∷ [] else []) ++ (if z then zeromq ∷ [] else [])

  answer-Notified :
      (p w z g : Bool) (rows : List NotifiedAgent) (m : Option (List NotifiedAgent))
      → NotifiedRows makes_context rows m
      → Notified p w z g rows (
          if not p
          then ([], false)
          else if g
          then after_loop makes_context (started w z) m
          else (started w z, true))
  answer-Notified false w z g rows m h = (ground arith, ground arith, ground arith, refl)
  answer-Notified true w z false rows m h = (ground arith, ground arith, ground arith, refl)
  answer-Notified true w z true rows none h = (ground arith, ground arith, ground arith, h)
  answer-Notified true true true true rows (some agents) h =
      (notified_ids-map agents ∙ h, refl, refl, refl)
  answer-Notified true true false true rows (some agents) h =
      (notified_ids-map agents ∙ h, refl, any_of-to_agent is_zeromq agents (λ a. refl), refl)
  answer-Notified true false true true rows (some agents) h =
      (notified_ids-map agents ∙ h, any_of-to_agent is_webhook agents (λ a. refl), refl, refl)
  answer-Notified true false false true rows (some agents) h = (
    notified_ids-map agents ∙ h,
    any_of-to_agent is_webhook agents (λ a. refl),
    any_of-to_agent is_zeromq agents (λ a. refl),
    refl,
  )

  -- If the agents are among the notifiers and notify_error returns, then the agent of every row is
  -- notified once, in the order of the rows, the failed one as well; else no agent is. The webhook
  -- and ZeroMQ are told exactly if they are configured and the message could be prepared. An
  -- exception leaves it only if the message could not be prepared, or if the agents are among the
  -- notifiers and the TLS context of one of the rows cannot be made.
  pub notify_error-Notified :
      (prepared : Bool) (notifiers : List String) (failing : NotifiedAgent)
      (rows : List NotifiedAgent)
      → Notified prepared
          (elem_str "webhook" notifiers)
          (elem_str "zeromq" notifiers)
          (elem_str "agent" notifiers)
          rows
          (notify_error makes_context prepared notifiers failing rows)
  unfolding notify_error
  notify_error-Notified prepared [] failing rows = (refl, refl, refl, refl)
  notify_error-Notified prepared (n ∷ notifiers) failing rows =
      answer-Notified prepared (elem_str "webhook" (n ∷ notifiers))
        (elem_str "zeromq" (n ∷ notifiers)) (elem_str "agent" (n ∷ notifiers)) rows
        (notified makes_context failing rows) (notified-NotifiedRows makes_context failing rows)
