-- ===== src/Verifier/Response/Counted.antt =====
-- keylime/cloud_verifier_common.py, process_quote_response: which answers count as attestations.
use keylime.Prelude.{
  ℕ, ◌+◌, ◌≡◌, refl, sym, ap, ◌∙◌, ◌⊎◌, inl, inr, Bool, true, false, not, Option, none, some, Bytes,
  if◌then◌else◌, ◌==◌, Bool-cases, arith, nonempty,
}
use keylime.Prelude.Int.{pos}
use keylime.Hash.{Hash}
use keylime.Failure.{Failure, Component, new_failure, merge, is_failure}
use keylime.Failure.Truth.{is_failure-merge, is_failure-add_event}
use keylime.Attest.{
  AgentAttestState, ClockDict, TpmClockInfo, clock_from_dict, reset_ima_attestation,
  is_expected_boottime,
}
use keylime.Ima.Keyrings.{ImaKeyring, set_tenant_keyring}
use keylime.Ima.Policy.{RuntimePolicy}
use keylime.Ima.Inputs.{ImaEnv}
use keylime.Tpm.Pcrs.{MbPlugin, MbEvaluate}
use keylime.Tpm.Quote.{QuoteReader, check_quote}
use keylime.Verifier.Response.{
  QuotedAgent, Response, accepted_alg, usable_hash, conclude_quote, prepare_state, request_of,
  verify, check_start, check_algs, with_key, check_key, check_response, process_quote_response,
  lacks_key, text_or_empty, fatal,
}

module _ {Pubkey : Type 0} (env : ImaEnv Pubkey) (plugin : MbPlugin) (evaluate : MbEvaluate)
    (reader : QuoteReader) (keyring_of : Bytes → Option (ImaKeyring Pubkey)) (now : ℕ)
    (mb_policy : Option Bytes) (policy : RuntimePolicy) where
  open env use {lib, severities}
  open reader use {Quote}

  -- the key that the answer has with it, or else the one that is known of the agent
  abbrev pub bound_key : Option Bytes → Bytes → Bytes
  bound_key none known = known
  bound_key (some key) known = key

  abbrev pub clock_known : Option ClockDict → TpmClockInfo → TpmClockInfo
  clock_known none clock = clock
  clock_known (some d) clock = clock_from_dict d

  -- the answer starts the log anew, or goes on where it was asked to after the boot that is known
  abbrev pub Starts : Response Quote → AgentAttestState Pubkey → AgentAttestState Pubkey → Type 0
  Starts r a started =
      ((r.ima_measurement_list_entry ≡ 0) × (started ≡ reset_ima_attestation a))
      ⊎ ((r.ima_measurement_list_entry ≡ a.next_ima_ml_entry)
          × (is_expected_boottime a r.boottime ≡ true)
          × (started ≡ a))

  -- the state with which the quote is checked
  abbrev pub checked_state :
      QuotedAgent → Response Quote → AgentAttestState Pubkey → AgentAttestState Pubkey
  checked_state g r started = record started {
    boottime = r.boottime;
    ima_keyrings = set_tenant_keyring started.ima_keyrings (
        keyring_of (
          if nonempty g.ima_sign_verification_keys
          then g.ima_sign_verification_keys
          else policy.verification_keys));
    tpm_clockinfo = clock_known g.tpm_clockinfo started.tpm_clockinfo;
  }

  -- the check of a quote for which an answer is counted
  pub record Attested (g : QuotedAgent) (r : Response Quote) (a : AgentAttestState Pubkey)
      (out : QuotedAgent × AgentAttestState Pubkey × Option Failure) : Type 0 where
    pub quote : Quote
    pub hash : Hash
    pub started : AgentAttestState Pubkey
    pub quote_failure : Failure
    pub answered : r.quote ≡ some quote
    pub hash_usable :
        usable_hash env plugin evaluate reader keyring_of now mb_policy policy r.hash_alg
          g.accept_tpm_hash_algs
        ≡ some hash
    pub enc_accepted : accepted_alg r.enc_alg g.accept_tpm_encryption_algs ≡ true
    pub sign_accepted : accepted_alg r.sign_alg g.accept_tpm_signing_algs ≡ true
    pub starts : Starts r a started
    pub checked :
        check_quote env plugin evaluate reader (checked_state g r started) (record {
          nonce = g.nonce;
          bind_data = some (bound_key r.pubkey g.public_key);
          quote = quote;
          aik_tpm = g.ak_tpm;
          tpm_policy = g.tpm_policy;
          ima_measurement_list = r.ima_measurement_list;
          runtime_policy = some policy;
          hash_alg = hash;
          mb_measurement_list = r.mb_measurement_list;
          mb_policy = mb_policy;
          compressed = g.compressed;
          count = pos g.attestation_count;
          skip_pcr_check = false;
          skip_clock_check = false;
        })
        ≡ (out.1, some quote_failure)
    pub clean : is_failure quote_failure ≡ false

  abbrev pub Counted :
      QuotedAgent
      → QuotedAgent
      → Response Quote
      → AgentAttestState Pubkey
      → QuotedAgent × AgentAttestState Pubkey × Option Failure
      → Type 0
  Counted g0 g r a out =
      (out.0.attestation_count ≡ g0.attestation_count)
      ⊎ ((out.0.attestation_count ≡ g0.attestation_count + 1) × Attested g r a out)

  abbrev Concluded :
      QuotedAgent
      → AgentAttestState Pubkey × Option Failure
      → QuotedAgent × AgentAttestState Pubkey × Option Failure
      → Type 0
  Concluded g o out =
      (out.0.attestation_count ≡ g.attestation_count)
      ⊎ ((out.0.attestation_count ≡ g.attestation_count + 1)
          × ((quote_failure : Failure) × (o ≡ (out.1, some quote_failure))
              × (is_failure quote_failure ≡ false)))

  conclude_quote-Concluded :
      (g : QuotedAgent) (key : Bytes) (f : Failure) (o : AgentAttestState Pubkey × Option Failure)
      → Concluded g o
          (conclude_quote env plugin evaluate reader keyring_of now mb_policy policy g key f o)
  conclude_quote-Concluded g key f (a, none) = inl refl
  conclude_quote-Concluded g key f (a, some q) = elim (Bool-cases (is_failure (merge f q))) [
    | inl e ↦ inl (rw e refl)
    | inr e ↦ inr (rw e (ground arith), (q, refl, ground (arith, is_failure-merge f q)))
  ]

  abbrev out_of :
      QuotedAgent
      → Response Quote
      → Quote
      → Bytes
      → Hash
      → Failure
      → AgentAttestState Pubkey
      → QuotedAgent × AgentAttestState Pubkey × Option Failure
  out_of g r quote key h f a =
      verify env plugin evaluate reader keyring_of now mb_policy policy g r quote key h f a

  -- an answer is not counted, or its quote has been checked without a failure
  abbrev Checked :
      QuotedAgent
      → Response Quote
      → Quote
      → Bytes
      → Hash
      → AgentAttestState Pubkey
      → QuotedAgent × AgentAttestState Pubkey × Option Failure
      → Type 0
  Checked g r quote key h a out =
      (out.0.attestation_count ≡ g.attestation_count)
      ⊎ ((out.0.attestation_count ≡ g.attestation_count + 1)
          × ((started : AgentAttestState Pubkey) × (q : Failure) × Starts r a started
              × (check_quote env plugin evaluate reader (checked_state g r started) (
                    request_of env plugin evaluate reader keyring_of now mb_policy policy g r quote
                      key h)
                  ≡ (out.1, some q))
              × (is_failure q ≡ false)))

  prepare_state-checked_state :
      (g : QuotedAgent) (r : Response Quote) (a : AgentAttestState Pubkey)
      → prepare_state env plugin evaluate reader keyring_of now mb_policy policy g r a
        ≡ checked_state g r a
  unfolding prepare_state
  prepare_state-checked_state g r a = by_clock g.tpm_clockinfo refl
    where
      by_clock :
          (o : Option ClockDict)
          → g.tpm_clockinfo ≡ o
          → prepare_state env plugin evaluate reader keyring_of now mb_policy policy g r a
            ≡ checked_state g r a
      by_clock none e = rw e refl
      by_clock (some d) e = rw e refl

  verify-Checked :
      (g : QuotedAgent) (r : Response Quote) (quote : Quote) (key : Bytes) (h : Hash) (f : Failure)
      (a started : AgentAttestState Pubkey)
      → Starts r a started
      → Checked g r quote key h a (out_of g r quote key h f started)
  verify-Checked g r quote key h f a started begun =
      elim (conclude_quote-Concluded g key f (
        check_quote env plugin evaluate reader
          (prepare_state env plugin evaluate reader keyring_of now mb_policy policy g r started)
          (request_of env plugin evaluate reader keyring_of now mb_policy policy g r quote key
            h))) [
              | inl same ↦ inl same
              | inr (more, found) ↦ inr (
                more,
                (
                  started,
                  found.0,
                  begun,
                  ap
                        (λ b. check_quote env plugin evaluate reader b (
                          request_of env plugin evaluate reader keyring_of now mb_policy policy g r
                            quote key h))
                        (sym (prepare_state-checked_state g r started))
                      ∙ found.1,
                  found.2,
                ),
              )
            ]

  -- a failure from before the quote is checked
  conclude_quote-failing :
      (g : QuotedAgent) (key : Bytes) (f : Failure) (o : AgentAttestState Pubkey × Option Failure)
      → is_failure f ≡ true
      → (conclude_quote env plugin evaluate reader keyring_of now mb_policy policy g key f
          o).0.attestation_count
        ≡ g.attestation_count
  conclude_quote-failing g key f (a, none) e = refl
  conclude_quote-failing g key f (a, some q) e = rw (is_failure-merge f q, e) refl

  either_Checked :
      (c : Bool) (g : QuotedAgent) (r : Response Quote) (quote : Quote) (key : Bytes) (h : Hash)
      (a : AgentAttestState Pubkey) (t u : QuotedAgent × AgentAttestState Pubkey × Option Failure)
      → (c ≡ true → Checked g r quote key h a t)
      → (c ≡ false → Checked g r quote key h a u)
      → Checked g r quote key h a (if c then t else u)
  either_Checked true g r quote key h a t u x y = x refl
  either_Checked false g r quote key h a t u x y = y refl

  equal : (m n : ℕ) → (m == n) ≡ true → m ≡ n
  equal m n e = ground arith

  of_not : (b : Bool) → not b ≡ false → b ≡ true
  of_not b e = ground arith

  check_start-Checked :
      (g : QuotedAgent) (r : Response Quote) (quote : Quote) (key : Bytes) (h : Hash) (f : Failure)
      (a : AgentAttestState Pubkey)
      → Checked g r quote key h a (
          check_start env plugin evaluate reader keyring_of now mb_policy policy g r quote key h f
            a)
  unfolding check_start
  check_start-Checked g r quote key h f a =
      either_Checked (r.ima_measurement_list_entry == 0) g r quote key h a _ _
        (λ zero.
          verify-Checked g r quote key h f a (reset_ima_attestation a)
            (inl (equal r.ima_measurement_list_entry 0 zero, refl)))
        (λ from.
          either_Checked (not (r.ima_measurement_list_entry == a.next_ima_ml_entry)) g r quote key h
            a _ _
            (λ other.
              inl
                (conclude_quote-failing g key _ _ (is_failure-add_event severities f _ false none)))
            (λ next.
              either_Checked (not (is_expected_boottime a r.boottime)) g r quote key h a _ _
                (λ rebooted. inl refl)
                (λ expected. verify-Checked g r quote key h f a a (
                  inr (
                    equal r.ima_measurement_list_entry a.next_ima_ml_entry (of_not _ next),
                    of_not _ expected,
                    refl,
                  )))))

  check_algs-Counted :
      (g : QuotedAgent) (r : Response Quote) (quote : Quote) (key : Bytes) (o : Option Hash)
      (f : Failure) (a : AgentAttestState Pubkey)
      → r.quote ≡ some quote
      → bound_key r.pubkey g.public_key ≡ key
      → usable_hash env plugin evaluate reader keyring_of now mb_policy policy r.hash_alg
          g.accept_tpm_hash_algs
        ≡ o
      → Counted g g r a (
          check_algs env plugin evaluate reader keyring_of now mb_policy policy g r quote key o f a)
  check_algs-Counted g r quote key none f a s b u = inl refl
  check_algs-Counted g r quote key (some h) f a s b u =
      by_algs (Bool-cases (accepted_alg r.enc_alg g.accept_tpm_encryption_algs))
        (Bool-cases (accepted_alg r.sign_alg g.accept_tpm_signing_algs))
    where
      all : QuotedAgent
      all = record g {
        hash_alg = text_or_empty r.hash_alg;
        enc_alg = text_or_empty r.enc_alg;
        sign_alg = text_or_empty r.sign_alg;
      }

      out : QuotedAgent × AgentAttestState Pubkey × Option Failure
      out =
          check_algs env plugin evaluate reader keyring_of now mb_policy policy g r quote key
            (some h) f a

      started :
          accepted_alg r.enc_alg g.accept_tpm_encryption_algs ≡ true
          → accepted_alg r.sign_alg g.accept_tpm_signing_algs ≡ true
          → Checked all r quote key h a out
      started e k = rw (e, k) (check_start-Checked all r quote key h f a)

      by_algs :
          ((accepted_alg r.enc_alg g.accept_tpm_encryption_algs ≡ true)
            ⊎ (accepted_alg r.enc_alg g.accept_tpm_encryption_algs ≡ false))
          → ((accepted_alg r.sign_alg g.accept_tpm_signing_algs ≡ true)
              ⊎ (accepted_alg r.sign_alg g.accept_tpm_signing_algs ≡ false))
          → Counted g g r a out
      by_algs (inr e) k = inl (rw e refl)
      by_algs (inl e) (inr k) = inl (rw (e, k) refl)
      by_algs (inl e) (inl k) = elim (started e k) [
        | inl same ↦ inl same
        | inr (more, (started, q, begun, checked, clean)) ↦ inr (
          more,
          record {
            quote = quote;
            hash = h;
            started = started;
            quote_failure = q;
            answered = s;
            hash_usable = u;
            enc_accepted = e;
            sign_accepted = k;
            starts = begun;
            checked = rw b checked;
            clean = clean;
          },
        )
      ]

  with_key-Counted :
      (g : QuotedAgent) (r : Response Quote) (quote : Quote) (key : Bytes) (f : Failure)
      (a : AgentAttestState Pubkey)
      → r.quote ≡ some quote
      → bound_key r.pubkey g.public_key ≡ key
      → Counted g g r a
          (with_key env plugin evaluate reader keyring_of now mb_policy policy g r quote key f a)
  with_key-Counted g r quote key f a s b = check_algs-Counted g r quote key _ f a s b refl

  check_key-Counted :
      (g : QuotedAgent) (r : Response Quote) (quote : Quote) (o : Option Bytes) (f : Failure)
      (a : AgentAttestState Pubkey)
      → r.quote ≡ some quote
      → r.pubkey ≡ o
      → Counted g g r a
          (check_key env plugin evaluate reader keyring_of now mb_policy policy g r quote o f a)
  check_key-Counted g r quote (some key) f a s p = with_key-Counted g r quote key f a s (rw p refl)
  check_key-Counted g r quote none f a s p =
      by_key (lacks_key env plugin evaluate reader keyring_of now mb_policy policy g)
    where
      kept : QuotedAgent
      kept = record g { should_provide_v = false }

      moved :
          (out : QuotedAgent × AgentAttestState Pubkey × Option Failure)
          → Counted kept kept r a out
          → Counted g g r a out
      moved out (inl same) = inl same
      moved out (inr (more, c)) = inr (
        more,
        record {
          quote = c.quote;
          hash = c.hash;
          started = c.started;
          quote_failure = c.quote_failure;
          answered = c.answered;
          hash_usable = c.hash_usable;
          enc_accepted = c.enc_accepted;
          sign_accepted = c.sign_accepted;
          starts = c.starts;
          checked = c.checked;
          clean = c.clean;
        },
      )

      by_key :
          (b : Bool)
          → Counted g g r a (
              if b
              then (
                g,
                a,
                some (
                    fatal env plugin evaluate reader keyring_of now mb_policy policy f "no_pubkey"),
              )
              else with_key env plugin evaluate reader keyring_of now mb_policy policy kept r quote
                  g.public_key f a)
      by_key true = inl refl
      by_key false = moved _ (with_key-Counted kept r quote g.public_key f a s (rw p refl))

  -- An answer of an agent leaves the count of its attestations as it is, or raises it by one. The
  -- latter only if its algorithms are accepted, its log starts anew or where it was asked to after
  -- the boot that is known, and check_quote has passed its quote: for the agent's nonce, AIK, TPM
  -- policy and clock, the key of the answer or else the known one, both lists of the answer, the
  -- runtime policy, its keyring and the measured boot policy, with nothing skipped.
  pub process_quote_response-Counted :
      (g : QuotedAgent) (r : Response Quote) (a : AgentAttestState Pubkey)
      → Counted g g r a
          (process_quote_response env plugin evaluate reader keyring_of now mb_policy policy g r a)
  unfolding process_quote_response
  process_quote_response-Counted g r a = by_quote r.quote refl
    where
      f : Failure
      f = new_failure Component.quote_validation none

      by_quote :
          (o : Option Quote)
          → r.quote ≡ o
          → Counted g g r a
              (check_response env plugin evaluate reader keyring_of now mb_policy policy g r o f a)
      by_quote none s = inl refl
      by_quote (some quote) s = check_key-Counted g r quote r.pubkey f a s refl
