-- ===== src/Verifier/Requests/KeyV.antt =====
-- keylime/cloud_verifier_common.py, prepare_v: V is sent encrypted with the agent's present key.
use mathlib.Core.Path.{subst}
use keylime.Prelude.{
  ℕ, ◌≡◌, refl, sym, ◌∙◌, ◌⊎◌, inl, inr, true, false, Option, none, some, some_inj, Bytes, nonempty,
  Bool-cases,
}
use keylime.Attest.{AgentAttestState}
use keylime.Ima.Keyrings.{ImaKeyring}
use keylime.Ima.Policy.{RuntimePolicy}
use keylime.Ima.Inputs.{ImaEnv}
use keylime.Tpm.Pcrs.{MbPlugin, MbEvaluate}
use keylime.Tpm.Quote.{QuoteReader}
use keylime.Verifier.Response.{QuotedAgent, Response, process_quote_response}
use keylime.Verifier.Response.Current.{IsCurrent, process_quote_response-Current}
use keylime.Verifier.Requests.{prepare_v, encrypted_v}

module _ (encrypt : Bytes → Bytes → Option Bytes) where
  -- what prepare_v gives: the agent, and the V that is sent
  abbrev pub IsUnderKey : QuotedAgent → QuotedAgent × Bytes → Type 0
  IsUnderKey g (g', sent) = (encrypt g.public_key g.v ≡ some sent) × IsCurrent encrypt g'

  encrypted_v-IsUnderKey :
      (g : QuotedAgent) (o : Option Bytes) (out : QuotedAgent × Bytes)
      → encrypt g.public_key g.v ≡ o
      → encrypted_v g o ≡ some out
      → IsUnderKey g out
  encrypted_v-IsUnderKey g none out e h = cc
  encrypted_v-IsUnderKey g (some v) out e h = subst (IsUnderKey g) (some_inj h) (e, inr e)

  prepare_v-IsUnderKey :
      (g : QuotedAgent) (out : QuotedAgent × Bytes)
      → IsCurrent encrypt g
      → prepare_v encrypt g ≡ some out
      → IsUnderKey g out
  unfolding prepare_v
  prepare_v-IsUnderKey g out c h = go c (Bool-cases (nonempty g.b64_encrypted_v))
    where
      absurd : {P : Type 0} → true ≡ false → P
      absurd e = cc

      go :
          IsCurrent encrypt g
          → ((nonempty g.b64_encrypted_v ≡ true) ⊎ (nonempty g.b64_encrypted_v ≡ false))
          → IsUnderKey g out
      go (inl empty) (inl kept) = absurd (sym kept ∙ empty)
      go (inr current) (inl kept) =
          subst (IsUnderKey g) (some_inj (rw kept at h)) (current, inr current)
      go current (inr empty) =
          encrypted_v-IsUnderKey g (encrypt g.public_key g.v) out refl (rw empty at h)

  -- If no V was kept, or one encrypted with the agent's key, then the V that is sent after an answer
  -- is encrypted with the key that the agent has after the answer, and what is kept stays so.
  pub sent_v-IsUnderKey :
      {Pubkey : Type 0} (env : ImaEnv Pubkey) (plugin : MbPlugin) (evaluate : MbEvaluate)
      (reader : QuoteReader) (keyring_of : Bytes → Option (ImaKeyring Pubkey)) (now : ℕ)
      (mb_policy : Option Bytes) (policy : RuntimePolicy) (g : QuotedAgent)
      (r : Response reader.Quote) (a : AgentAttestState Pubkey) (out : QuotedAgent × Bytes)
      → IsCurrent encrypt g
      → prepare_v encrypt
          (process_quote_response env plugin evaluate reader keyring_of now mb_policy policy g r
            a).0
        ≡ some out
      → IsUnderKey
          (process_quote_response env plugin evaluate reader keyring_of now mb_policy policy g r
            a).0
          out
  sent_v-IsUnderKey env plugin evaluate reader keyring_of now mb_policy policy g r a out c h =
      prepare_v-IsUnderKey
        (process_quote_response env plugin evaluate reader keyring_of now mb_policy policy g r a).0
        out
        (process_quote_response-Current env plugin evaluate reader keyring_of now mb_policy policy
          encrypt g r a c)
        h
