-- ===== src/Verifier/Response/Current.antt =====
-- keylime/cloud_verifier_common.py, process_quote_response: the encrypted V that the agent's dict keeps
-- is dropped when an answer brings another key.
use keylime.Prelude.{
  ℕ, ◌≡◌, refl, ◌⊎◌, inl, inr, Bool, true, false, not, Option, none, some, Bytes, if◌then◌else◌,
  ◌==◌, nonempty, bytes_eq, Bool-cases,
}
use keylime.Hash.{Hash}
use keylime.Failure.{Failure, Component, new_failure, merge, is_failure}
use keylime.Attest.{AgentAttestState, is_expected_boottime}
use keylime.Ima.Keyrings.{ImaKeyring}
use keylime.Ima.Policy.{RuntimePolicy}
use keylime.Ima.Inputs.{ImaEnv}
use keylime.Tpm.Pcrs.{MbPlugin, MbEvaluate}
use keylime.Tpm.Quote.{QuoteReader}
use keylime.Verifier.Response.{
  QuotedAgent, Response, accepted_alg, conclude_quote, check_start, check_algs, check_key,
  check_response, process_quote_response, lacks_key, record_success,
}

-- no V is kept, or it is encrypted with the agent's key
abbrev pub IsCurrent : (Bytes → Bytes → Option Bytes) → QuotedAgent → Type 0
IsCurrent encrypt g =
    (nonempty g.b64_encrypted_v ≡ false) ⊎ (encrypt g.public_key g.v ≡ some g.b64_encrypted_v)

module _ {Pubkey : Type 0} (env : ImaEnv Pubkey) (plugin : MbPlugin) (evaluate : MbEvaluate)
    (reader : QuoteReader) (keyring_of : Bytes → Option (ImaKeyring Pubkey)) (now : ℕ)
    (mb_policy : Option Bytes) (policy : RuntimePolicy)
    (encrypt : Bytes → Bytes → Option Bytes) where
  open reader use {Quote}

  abbrev StaysCurrent : QuotedAgent × AgentAttestState Pubkey × Option Failure → Type 0
  StaysCurrent (g, a, o) = IsCurrent encrypt g

  success-Current :
      (g : QuotedAgent) (a : AgentAttestState Pubkey) (key : Bytes)
      → IsCurrent encrypt g
      → IsCurrent encrypt
          (record_success env plugin evaluate reader keyring_of now mb_policy policy g a key)
  success-Current g a key c = elim (Bool-cases (bytes_eq key g.public_key)) [
    | inl same ↦ rw same c
    | inr other ↦ rw other (inl refl)
  ]

  conclude-Current :
      (g : QuotedAgent) (key : Bytes) (f : Failure) (o : AgentAttestState Pubkey × Option Failure)
      → IsCurrent encrypt g
      → StaysCurrent
          (conclude_quote env plugin evaluate reader keyring_of now mb_policy policy g key f o)
  conclude-Current g key f (a, none) c = c
  conclude-Current g key f (a, some q) c = elim (Bool-cases (is_failure (merge f q))) [
    | inl e ↦ rw e c
    | inr e ↦ rw e (success-Current (record g { last_received_quote = now }) a key c)
  ]

  either :
      (b : Bool) (t u : QuotedAgent × AgentAttestState Pubkey × Option Failure)
      → StaysCurrent t
      → StaysCurrent u
      → StaysCurrent (if b then t else u)
  either true t u x y = x
  either false t u x y = y

  start-Current :
      (g : QuotedAgent) (r : Response Quote) (quote : Quote) (key : Bytes) (h : Hash) (f : Failure)
      (a : AgentAttestState Pubkey)
      → IsCurrent encrypt g
      → StaysCurrent (
          check_start env plugin evaluate reader keyring_of now mb_policy policy g r quote key h f
            a)
  unfolding check_start
  start-Current g r quote key h f a c =
      either (r.ima_measurement_list_entry == 0) _ _ (conclude-Current g key f _ c) (
        either (not (r.ima_measurement_list_entry == a.next_ima_ml_entry)) _ _
          (conclude-Current g key _ _ c)
          (either (not (is_expected_boottime a r.boottime)) _ _ c (conclude-Current g key f _ c)))

  algs-Current :
      (g : QuotedAgent) (r : Response Quote) (quote : Quote) (key : Bytes) (o : Option Hash)
      (f : Failure) (a : AgentAttestState Pubkey)
      → IsCurrent encrypt g
      → StaysCurrent (
          check_algs env plugin evaluate reader keyring_of now mb_policy policy g r quote key o f a)
  algs-Current g r quote key none f a c = c
  algs-Current g r quote key (some h) f a c =
      either (not (accepted_alg r.enc_alg g.accept_tpm_encryption_algs)) _ _ c (
        either (not (accepted_alg r.sign_alg g.accept_tpm_signing_algs)) _ _ c
          (start-Current _ r quote key h f a c))

  key-Current :
      (g : QuotedAgent) (r : Response Quote) (quote : Quote) (o : Option Bytes) (f : Failure)
      (a : AgentAttestState Pubkey)
      → IsCurrent encrypt g
      → StaysCurrent
          (check_key env plugin evaluate reader keyring_of now mb_policy policy g r quote o f a)
  key-Current g r quote (some key) f a c = algs-Current g r quote key _ f a c
  key-Current g r quote none f a c =
      either (lacks_key env plugin evaluate reader keyring_of now mb_policy policy g) _ _ c
        (algs-Current (record g { should_provide_v = false }) r quote g.public_key _ f a c)

  response-Current :
      (g : QuotedAgent) (r : Response Quote) (o : Option Quote) (f : Failure)
      (a : AgentAttestState Pubkey)
      → IsCurrent encrypt g
      → StaysCurrent
          (check_response env plugin evaluate reader keyring_of now mb_policy policy g r o f a)
  response-Current g r none f a c = c
  response-Current g r (some quote) f a c = key-Current g r quote r.pubkey f a c

  pub process_quote_response-Current :
      (g : QuotedAgent) (r : Response Quote) (a : AgentAttestState Pubkey)
      → IsCurrent encrypt g
      → IsCurrent encrypt
          (process_quote_response env plugin evaluate reader keyring_of now mb_policy policy g r
            a).0
  unfolding process_quote_response
  process_quote_response-Current g r a c =
      response-Current g r r.quote (new_failure Component.quote_validation none) a c
