-- ===== src/Verifier/Cache.antt =====
-- keylime/cloud_verifier_tornado.py, verifier_read_policy_from_cache: the runtime policies that the
-- verifier keeps of its agents, by checksum, in GLOBAL_POLICY_CACHE.
use mathlib.Core.Path.{subst}
use keylime.Prelude.{
  suc, ◌≤◌, ◌≡◌, refl, sym, ap, ◌∙◌, inl, inr, String, Option, none, some, some_inj, List, [], ◌∷◌,
  arith, str_eq, eq_iff, if◌then◌else◌, ltb, length, Bool-cases,
}
use keylime.Prelude.Dict.{get, put, get-put, get-put_self, string_key}

-- the row of an IMA policy, and of an agent with its policy
pub record ImaPolicy : Type 0 where
  pub checksum : String
  pub ima_policy : String

pub record StoredAgent : Type 0 where
  pub agent_id : String
  pub ima_policy : Option ImaPolicy

abbrev pub Policies : Type 0
Policies = List (String × String)

abbrev pub PolicyCache : Type 0
PolicyCache = List (String × Policies)

abbrev pub no_policies : Policies
no_policies = ("", "") ∷ []

abbrev policies_or_new : Option Policies → Policies
policies_or_new none = no_policies
policies_or_new (some l) = l

abbrev pub checksum_of : Option ImaPolicy → String
checksum_of none = ""
checksum_of (some p) = p.checksum

abbrev cleaned : Policies → Policies
cleaned l = if ltb 1 (length l) then no_policies else l

-- the policies of the agent afterwards, and the answer, `none` for an exception
abbrev load : Policies → Option ImaPolicy → Policies × Option String
load l none = (cleaned l, none)
load l (some p) = (
  put (cleaned l) p.checksum p.ima_policy,
  get (put (cleaned l) p.checksum p.ima_policy) p.checksum,
)

abbrev look_up : Policies → Option ImaPolicy → Option String → Policies × Option String
look_up l stored none = load l stored
look_up l stored (some policy) = (l, some policy)

abbrev read_policies : Policies → Option ImaPolicy → Policies × Option String
read_policies l stored = look_up l stored (get l (checksum_of stored))

unfoldable pub verifier_read_policy_from_cache :
    PolicyCache → StoredAgent → PolicyCache × Option String
verifier_read_policy_from_cache cache agent =
    let read = read_policies (policies_or_new (get cache agent.agent_id)) agent.ima_policy in
    (put cache agent.agent_id read.0, read.1)

module _ (policy_of : String → String) (no_policy : policy_of "" ≡ "") where
  -- Policies of an agent: those of their checksums, the empty one among them, at most two.
  abbrev pub IsFaithful : Policies → Type 0
  IsFaithful l =
      ((c p : String) → get l c ≡ some p → p ≡ policy_of c) × (get l "" ≡ some "") × (length l ≤ 2)

  abbrev pub IsFaithfulCache : PolicyCache → Type 0
  IsFaithfulCache cache =
      (agent_id : String) (l : Policies) → get cache agent_id ≡ some l → IsFaithful l

  -- what is found after a put: the new policy, or one found before
  put-faithful :
      (l : Policies) (c v : String)
      → v ≡ policy_of c
      → ((d p : String) → get l d ≡ some p → p ≡ policy_of d)
      → (d p : String) → get (put l c v) d ≡ some p
      → p ≡ policy_of d
  put-faithful l c v e h d p found = elim (Bool-cases (str_eq c d)) [
    | inl same ↦
        sym (some_inj (sym (rw same at (get-put l c d v)) ∙ found))
        ∙ e
        ∙ ap policy_of ((eq_iff c d).0 same)
    | inr other ↦ h d p (sym (rw other at (get-put l c d v)) ∙ found)
  ]

  length-put : (l : Policies) (c v : String) → length (put l c v) ≤ suc (length l)
  length-put [] c v = omega arith
  length-put ((d, w) ∷ l) c v = ground (arith, length-put l c v)

  no_policies-IsFaithful : IsFaithful no_policies
  no_policies-IsFaithful = (put-faithful [] "" "" (sym no_policy) (λ d p h. cc), refl, omega arith)

  cleaned-IsFaithful :
      (l : Policies) → IsFaithful l → IsFaithful (cleaned l) × (length (cleaned l) ≤ 1)
  cleaned-IsFaithful l h = elim (Bool-cases (ltb 1 (length l))) [
    | inl big ↦ rw big (no_policies-IsFaithful, omega arith)
    | inr small ↦ rw small (h, ground arith)
  ]

  put-keeps_empty :
      (l : Policies) (c v : String)
      → v ≡ policy_of c
      → get l "" ≡ some ""
      → get (put l c v) "" ≡ some ""
  put-keeps_empty l c v e h = elim (Bool-cases (str_eq c "")) [
    | inl same ↦
        rw same at (get-put l c "" v)
        ∙ ap some (e ∙ ap policy_of ((eq_iff c "").0 same) ∙ no_policy)
    | inr other ↦ rw other at (get-put l c "" v) ∙ h
  ]

  -- the row of the database has the policy of its checksum
  abbrev pub IsStored : Option ImaPolicy → Type 0
  IsStored none = Unit
  IsStored (some p) = p.ima_policy ≡ policy_of p.checksum

  look_up-IsFaithful :
      (l : Policies) (stored : Option ImaPolicy) (o : Option String)
      → IsFaithful l
      → IsStored stored
      → get l (checksum_of stored) ≡ o
      → IsFaithful (look_up l stored o).0
        × ((look_up l stored o).1 ≡ some (policy_of (checksum_of stored)))
  look_up-IsFaithful l stored (some policy) h row e =
      (h, ap some (h.0 (checksum_of stored) policy e))
  look_up-IsFaithful l none none h row e = cc
  look_up-IsFaithful l (some p) none h row e =
      let (kept, short) = cleaned-IsFaithful l h in
      (
        (
          put-faithful (cleaned l) p.checksum p.ima_policy row kept.0,
          put-keeps_empty (cleaned l) p.checksum p.ima_policy row kept.1,
          omega (arith, short, length-put (cleaned l) p.checksum p.ima_policy),
        ),
        get-put_self (cleaned l) p.checksum p.ima_policy ∙ ap some row,
      )

  policies_or_new-IsFaithful :
      (o : Option Policies)
      → ((l : Policies) → o ≡ some l → IsFaithful l)
      → IsFaithful (policies_or_new o)
  policies_or_new-IsFaithful none h = no_policies-IsFaithful
  policies_or_new-IsFaithful (some l) h = h l refl

  -- The policy read from a faithful cache is that of the checksum in the agent's row, the empty one
  -- for an agent without a policy, and the cache stays faithful, with at most two policies an agent.
  pub read_policy_from_cache-IsFaithfulCache :
      (cache : PolicyCache) (agent : StoredAgent)
      → IsFaithfulCache cache
      → IsStored agent.ima_policy
      → ((verifier_read_policy_from_cache cache agent).1
          ≡ some (policy_of (checksum_of agent.ima_policy)))
        × IsFaithfulCache (verifier_read_policy_from_cache cache agent).0
  unfolding verifier_read_policy_from_cache
  read_policy_from_cache-IsFaithfulCache cache agent h row =
      let l = policies_or_new (get cache agent.agent_id) in
      let (kept, answer) =
        look_up-IsFaithful l agent.ima_policy (get l (checksum_of agent.ima_policy))
          (policies_or_new-IsFaithful (get cache agent.agent_id) (h agent.agent_id)) row refl in
      (
        answer,
        λ agent_id m found. elim (Bool-cases (str_eq agent.agent_id agent_id)) [
          | inl same ↦
              subst IsFaithful
                (some_inj (
                  sym (
                    rw same at
                      (get-put cache agent.agent_id agent_id (read_policies l agent.ima_policy).0))
                  ∙ found))
                kept
          | inr other ↦ h agent_id m (
              sym (
                rw other at
                  (get-put cache agent.agent_id agent_id (read_policies l agent.ima_policy).0))
              ∙ found)
        ],
      )
