-- ===== src/Lib.antt =====
-- Keylime, a remote attestation system: the verifier asks an agent's TPM for quotes of its PCRs,
-- replays the agent's IMA measurement list against the quoted value, and checks each entry
-- against a runtime policy. What it finds is collected in failures, whose severity decides how
-- the verifier goes on.
--
-- Parts, and how they interact:
--   * Failure: keylime/failure.py. Failures hold events with severity labels; Failure.Config has
--     the configuration of the labels. All validation returns failures.
--   * Hash: keylime/common/algorithms.py.
--   * Attest: keylime/agentstates.py, the state of an agent between two quotes (PCR banks, next
--     entry of the log, learned keyrings, progress), and Attest.States, the map of all agents.
--   * Ima.Keyrings: keylime/ima/file_signatures.py, keyrings and signatures of files.
--   * Ima.Ast: keylime/ima/ast.py, the entries of a measurement list and their binary form.
--   * Ima.Policy: the validators of keylime/ima/ima.py; Ima.Inputs and Ima.Process: its
--     process_measurement_list, which reads and writes the agent's state.
--   * Tpm: keylime/tpm/tpm_main.py. Tpm.Timing compares the clock of a quote with that of the last
--     one, Tpm.Pcrs checks the quoted PCRs against the bound data, the measurement list, the boot
--     log and the policy, and Tpm.Quote has check_quote, which calls both.
--     Tpm.Struct, Tpm.Objects and Tpm.Attested: keylime/tpm/tpm2_objects.py, the public areas of keys
--     to bytes and back, and the reading of the attestation of a quote.
--   * Verifier: process_agent of keylime/cloud_verifier_tornado.py with keylime/common/states.py and
--     keylime/common/retry.py. A call gives the agent's next dict, its effects on the database, the
--     loop and the notifiers, and whether it calls itself. process_agent runs as many calls as it is
--     given entries, each with the state that is read from the database and the position of the
--     effect that raises, if one does. The handler of exceptions calls process_agent again, so that
--     while every call raises there is no end to them, in the source as well. Two calls in which
--     nothing raises are enough: one that a call makes finds a failure to record or a quote to ask
--     for, and returns. Verifier.Along follows the dict and the failure through one call,
--     and Verifier.Timers the recorded timer.
--     Verifier.Notify is notify_error.
--     Verifier.Response is process_quote_response of keylime/cloud_verifier_common.py, which takes
--     the agent's answer to check_quote.
--     Verifier.Requests has the answers of agents to the requests of cloud_verifier_tornado.py, each
--     with the calls of process_agent that follow, Verifier.Versions the version of an agent's API
--     (keylime/common/version.py), Verifier.Cache the cache of policies, and Verifier.Identity the check
--     of quotes from third parties.
--   * Mba: keylime/mba/elchecking. Mba.Value has the JSON values and the reasons that tests give,
--     Mba.Test, Mba.Steps and Mba.WhyNot the classes of tests and their why_not, Mba.Builders the constructors
--     that check arguments and the composed classes, Mba.Elchecker the registry of policies and
--     bootlog_evaluate, which gives the verifier the failure of a boot log.
--   * Prelude, Regex: shared notation, dicts as association lists, and Python's `re`.
--   * Tests: the theorems at concrete inputs.
--
-- A Python object is a record and a method a function from the record to its next value; what
-- raises returns `none` or `err`. Loops are structural recursion over the list they iterate, so
-- there is no fuel, but for the digits of a number, where the number itself is enough. Texts of
-- measurement lists are lists of their UTF-8 bytes.
--
-- Parameters: hashlib is the record Hashlib, the cryptography package Crypto and Loaders, `re` the
-- record Regex, `int()` of a text a function, the measured boot plug-in MbPlugin, the signature
-- check of a quote QuoteReader, and ImaKeyring.from_string and `json.loads` functions. The
-- keys of the cryptography package, with their numbers, are the record Keys.
--
-- Not modelled: the requests themselves and durable attestation; exceptions of the cryptography package
-- in the check of a file's signature other than InvalidSignature, and of get_session; floats in event logs; contexts of events and log texts; the device-mapper validator, since the schema of
-- a policy admits only null for dm_policy; the lock of the map of agent states; the count of errors
-- per mode, which only feeds the log; lengths of 2^32 and above in `<I` fields, a struct.error. The
-- partial write of an `init_pcr` that raises is left out, since every PCR is a key of the state.
pub mod Prelude
pub mod Regex
pub mod Failure
pub mod Hash
pub mod Attest
pub mod Ima
pub mod Tpm
pub mod Verifier
pub mod Mba
pub mod Tests
