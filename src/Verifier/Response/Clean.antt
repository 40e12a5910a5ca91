-- ===== src/Verifier/Response/Clean.antt =====
-- keylime/cloud_verifier_common.py, process_quote_response: what lies behind an answer without failure.
use keylime.Prelude.{
  ℕ, ◌+◌, ◌≡◌, refl, ◌⊎◌, inl, inr, Bool, true, false, not, Option, none, some, Bytes,
  if◌then◌else◌, ◌==◌, Bool-cases, arith,
}
use keylime.Hash.{Hash}
use keylime.Failure.{Failure, Component, new_failure, merge, is_failure}
use keylime.Failure.Truth.{is_failure-add_event}
use keylime.Attest.{AgentAttestState, reset_ima_attestation, is_expected_boottime}
use keylime.Ima.Keyrings.{ImaKeyring}
use keylime.Ima.Policy.{RuntimePolicy}
use keylime.Ima.Inputs.{ImaEnv}
use keylime.Tpm.Pcrs.{MbPlugin, MbEvaluate}
use keylime.Tpm.Quote.{QuoteReader}
use keylime.Verifier.Response.{
  QuotedAgent, Response, accepted_alg, conclude_quote, check_start, check_algs, check_key,
  check_response, process_quote_response, lacks_key,
}
use keylime.Verifier.Response.Counted.{Attested, Counted, process_quote_response-Counted}

module _ {Pubkey : Type 0} (env : ImaEnv Pubkey) (plugin : MbPlugin) (evaluate : MbEvaluate)
    (reader : QuoteReader) (keyring_of : Bytes → Option (ImaKeyring Pubkey)) (now : ℕ)
    (mb_policy : Option Bytes) (policy : RuntimePolicy) where
  open env use {lib, severities}
  open reader use {Quote}

  -- the agent has answered the requested part of its log after another boot, and its state is reset
  pub record Rebooted (r : Response Quote) (a out : AgentAttestState Pubkey) : Type 0 where
    pub not_from_zero : (r.ima_measurement_list_entry == 0) ≡ false
    pub requested : r.ima_measurement_list_entry ≡ a.next_ima_ml_entry
    pub unexpected : is_expected_boottime a r.boottime ≡ false
    pub reset : out ≡ reset_ima_attestation a

  abbrev Explained :
      ℕ
      → Response Quote
      → AgentAttestState Pubkey
      → QuotedAgent × AgentAttestState Pubkey × Option Failure
      → Type 0
  Explained count r a (g, b, none) = Unit
  Explained count r a (g, b, some f) =
      (is_failure f ≡ true) ⊎ ((g.attestation_count ≡ count + 1) ⊎ Rebooted r a b)

  conclude-Explained :
      (g : QuotedAgent) (r : Response Quote) (a : AgentAttestState Pubkey) (key : Bytes)
      (f : Failure) (o : AgentAttestState Pubkey × Option Failure)
      → Explained g.attestation_count r a
          (conclude_quote env plugin evaluate reader keyring_of now mb_policy policy g key f o)
  conclude-Explained g r a key f (b, none) = tt
  conclude-Explained g r a key f (b, some q) = elim (Bool-cases (is_failure (merge f q))) [
    | inl e ↦ inl e
    | inr e ↦ inr (inl (rw e (ground arith)))
  ]

  either :
      (c : Bool) (n : ℕ) (r : Response Quote) (a : AgentAttestState Pubkey)
      (t u : QuotedAgent × AgentAttestState Pubkey × Option Failure)
      → (c ≡ true → Explained n r a t)
      → (c ≡ false → Explained n r a u)
      → Explained n r a (if c then t else u)
  either true n r a t u x y = x refl
  either false n r a t u x y = y refl

  negated : (b : Bool) → not b ≡ true → b ≡ false
  negated b h = ground arith

  requested_entry :
      (r : Response Quote) (a : AgentAttestState Pubkey)
      → not (r.ima_measurement_list_entry == a.next_ima_ml_entry) ≡ false
      → r.ima_measurement_list_entry ≡ a.next_ima_ml_entry
  requested_entry r a h = ground arith

  start-Explained :
      (g : QuotedAgent) (r : Response Quote) (quote : Quote) (key : Bytes) (h : Hash) (f : Failure)
      (a : AgentAttestState Pubkey)
      → Explained g.attestation_count r a (
          check_start env plugin evaluate reader keyring_of now mb_policy policy g r quote key h f
            a)
  unfolding check_start
  start-Explained g r quote key h f a =
      either (r.ima_measurement_list_entry == 0) _ r a _ _ (λ e. conclude-Explained g r a key f _)
        (λ from.
          either (not (r.ima_measurement_list_entry == a.next_ima_ml_entry)) _ r a _ _
            (λ e. conclude-Explained g r a key _ _)
            (λ next.
              either (not (is_expected_boottime a r.boottime)) _ r a _ _
                (λ b. inr (
                  inr (record {
                    not_from_zero = from;
                    requested = requested_entry r a next;
                    unexpected = negated (is_expected_boottime a r.boottime) b;
                    reset = refl;
                  })))
                (λ b. conclude-Explained g r a key f _)))

  algs-Explained :
      (g : QuotedAgent) (r : Response Quote) (quote : Quote) (key : Bytes) (o : Option Hash)
      (f : Failure) (a : AgentAttestState Pubkey)
      → Explained g.attestation_count r a (
          check_algs env plugin evaluate reader keyring_of now mb_policy policy g r quote key o f a)
  algs-Explained g r quote key none f a = inl (is_failure-add_event severities f _ false none)
  algs-Explained g r quote key (some h) f a =
      either (not (accepted_alg r.enc_alg g.accept_tpm_encryption_algs)) _ r a _ _
        (λ e. inl (is_failure-add_event severities f _ false none))
        (λ e.
          either (not (accepted_alg r.sign_alg g.accept_tpm_signing_algs)) _ r a _ _
            (λ k. inl (is_failure-add_event severities f _ false none))
            (λ k. start-Explained _ r quote key h f a))

  key-Explained :
      (g : QuotedAgent) (r : Response Quote) (quote : Quote) (o : Option Bytes) (f : Failure)
      (a : AgentAttestState Pubkey)
      → Explained g.attestation_count r a
          (check_key env plugin evaluate reader keyring_of now mb_policy policy g r quote o f a)
  key-Explained g r quote (some key) f a = algs-Explained g r quote key _ f a
  key-Explained g r quote none f a =
      either (lacks_key env plugin evaluate reader keyring_of now mb_policy policy g) _ r a _ _
        (λ e. inl (is_failure-add_event severities f _ false none))
        (λ e. algs-Explained (record g { should_provide_v = false }) r quote g.public_key _ f a)

  response-Explained :
      (g : QuotedAgent) (r : Response Quote) (o : Option Quote) (f : Failure)
      (a : AgentAttestState Pubkey)
      → Explained g.attestation_count r a
          (check_response env plugin evaluate reader keyring_of now mb_policy policy g r o f a)
  response-Explained g r none f a = inl (is_failure-add_event severities f _ false none)
  response-Explained g r (some quote) f a = key-Explained g r quote r.pubkey f a

  abbrev pub Behind :
      QuotedAgent
      → Response Quote
      → AgentAttestState Pubkey
      → QuotedAgent × AgentAttestState Pubkey × Option Failure
      → Type 0
  Behind g r a out =
      Attested env plugin evaluate reader keyring_of now mb_policy policy g r a out
      ⊎ Rebooted r a out.1

  answer-Behind :
      (g : QuotedAgent) (r : Response Quote) (a : AgentAttestState Pubkey)
      (out : QuotedAgent × AgentAttestState Pubkey × Option Failure) (f : Failure)
      → out.2 ≡ some f
      → is_failure f ≡ false
      → Explained g.attestation_count r a out
      → Counted env plugin evaluate reader keyring_of now mb_policy policy g g r a out
      → Behind g r a out
  answer-Behind g r a (g', b, none) f e clean x c = cc
  answer-Behind g r a (g', b, some f') f e clean (inl bad) c = cc
  answer-Behind g r a (g', b, some f') f e clean (inr (inl more)) (inl same) = ground arith
  answer-Behind g r a (g', b, some f') f e clean (inr (inl more)) (inr (counted, attested)) =
      inl attested
  answer-Behind g r a (g', b, some f') f e clean (inr (inr rebooted)) c = inr rebooted

  -- An answer without failure has an attested quote behind it, or the agent was rebooted, and its quote
  -- has not been checked.
  pub clean_answer_explained :
      (g : QuotedAgent) (r : Response Quote) (a : AgentAttestState Pubkey) (f : Failure)
      → (process_quote_response env plugin evaluate reader keyring_of now mb_policy policy g r a).2
        ≡ some f
      → is_failure f ≡ false
      → Behind g r a
          (process_quote_response env plugin evaluate reader keyring_of now mb_policy policy g r a)
  unfolding process_quote_response
  clean_answer_explained g r a f e clean =
      answer-Behind g r a _ f e clean
        (response-Explained g r r.quote (new_failure Component.quote_validation none) a)
        (process_quote_response-Counted env plugin evaluate reader keyring_of now mb_policy policy g
          r a)
