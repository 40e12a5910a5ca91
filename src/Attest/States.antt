-- ===== src/Attest/States.antt =====
-- keylime/agentstates.py, class AgentAttestStates: the map from agent ids to their states. A state
-- that the map hands out is the one in the map, so `add` writes it back.
use keylime.Prelude.{
  ℕ, String, ◌≡◌, Option, none, some, List, arith, Bytes, str_eq, eq_iff, if◌then◌else◌,
}
use keylime.Prelude.Dict.{get, put, remove, get-put, get-remove, get-put_self, string_key}
use keylime.Ima.Keyrings.{ImaKeyrings}
use keylime.Attest.{AgentAttestState, new_agent_attest_state, set_ima_pcrs}

pub record AgentAttestStates (Pubkey : Type 0) : Type 0 where
  pub states : List (String × AgentAttestState Pubkey)

module _ {Pubkey : Type 0} where
  abbrev state_or_new : Option (AgentAttestState Pubkey) → String → AgentAttestState Pubkey
  state_or_new none agent_id = new_agent_attest_state agent_id
  state_or_new (some s) agent_id = s

  -- the state of an agent, a new one if the map has none
  abbrev pub state_of : AgentAttestStates Pubkey → String → AgentAttestState Pubkey
  state_of m agent_id = state_or_new (get m.states agent_id) agent_id

  -- AgentAttestStates.get_by_agent_id
  unfoldable pub get_by_agent_id :
      AgentAttestStates Pubkey → String → AgentAttestStates Pubkey × AgentAttestState Pubkey
  get_by_agent_id m agent_id = elim (get m.states agent_id) [
    | some s ↦ (m, s)
    | none ↦ (
      record { states = put m.states agent_id (new_agent_attest_state agent_id) },
      new_agent_attest_state agent_id,
    )
  ]

  -- what a holder of the shared state has written is seen in the map
  unfoldable pub write_back :
      AgentAttestStates Pubkey → String → AgentAttestState Pubkey → AgentAttestStates Pubkey
  write_back m agent_id s = record { states = put m.states agent_id s }

  -- AgentAttestStates.delete_by_agent_id
  unfoldable pub delete_by_agent_id : AgentAttestStates Pubkey → String → AgentAttestStates Pubkey
  delete_by_agent_id m agent_id = record { states = remove m.states agent_id }

  -- AgentAttestStates.add
  unfoldable pub add :
      AgentAttestStates Pubkey
      → String
      → ℕ
      → List (ℕ × Bytes)
      → ℕ
      → ImaKeyrings Pubkey
      → AgentAttestStates Pubkey
  unfolding get_by_agent_id write_back set_ima_pcrs
  add m agent_id boottime ima_pcrs_dict next_ima_ml_entry learned_ima_keyrings =
      let (m', s) = get_by_agent_id m agent_id in
      let s' = set_ima_pcrs s ima_pcrs_dict in
      write_back m' agent_id (record s' {
        boottime = boottime;
        next_ima_ml_entry = next_ima_ml_entry;
        ima_keyrings = learned_ima_keyrings;
      })

  -- Asking for an agent's state returns what the map holds for it, or a new state that is then in
  -- the map, and changes the state of no agent.
  pub get_by_agent_id_stable :
      (m : AgentAttestStates Pubkey) (agent_id other : String)
      → ((get_by_agent_id m agent_id).1 ≡ state_of m agent_id)
        × (get (get_by_agent_id m agent_id).0.states agent_id ≡ some (state_of m agent_id))
        × (state_of (get_by_agent_id m agent_id).0 other ≡ state_of m other)
  unfolding get_by_agent_id
  get_by_agent_id_stable m agent_id other = (
    ground arith,
    ground (arith, get-put_self m.states agent_id (new_agent_attest_state agent_id)),
    ground (
      arith,
      get-put m.states agent_id other (new_agent_attest_state agent_id),
      eq_iff agent_id other,
    ),
  )

  -- Deleting an agent's state makes it start anew, and leaves those of the others.
  pub delete_starts_anew :
      (m : AgentAttestStates Pubkey) (agent_id other : String)
      → state_of (delete_by_agent_id m agent_id) other
        ≡ (if str_eq agent_id other then new_agent_attest_state other else state_of m other)
  unfolding delete_by_agent_id
  delete_starts_anew m agent_id other =
      ground (arith, get-remove m.states agent_id other, eq_iff agent_id other)
