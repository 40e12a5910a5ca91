-- ===== src/Regex.antt =====
-- The part of Python's `re` that keylime uses, over the texts of type `T`: compiling a pattern may
-- raise `re.error`, and a compiled pattern is asked for a match at the start of a text or of the
-- whole text.
use keylime.Prelude.{Bool, Option, some}

pub record Regex (T : Type 0) : Type 1 where
  pub Pattern : Type 0
  pub compile : T → Option Pattern
  pub match_prefix : Pattern → T → Bool
  pub fullmatch : Pattern → T → Bool

-- Patterns that match just themselves, for runs of the model on concrete inputs.
abbrev pub literals : {T : Type 0} → (T → T → Bool) → Regex T
literals {T} same = record {
  Pattern = T;
  compile = λ s. some s;
  match_prefix = same;
  fullmatch = same;
}
