-- ===== src/Failure/Config.antt =====
-- keylime/failure.py, `_eval_severity_config` and `set_severity_config`: the rules that give an
-- event its label. `none` stands for the exception that the source raises: an empty argument, or
-- a pattern that `re.compile` refuses.
pub mod Bounds
use keylime.Prelude.{
  ℕ, zero, suc, ◌+◌, ◌≤◌, ◌<◌, String, ◌≡◌, refl, Bool, Option, none, some, List, [], ◌∷◌, arith,
  if◌then◌else◌, length,
}
use keylime.Prelude.Dict.{get, put, get-put, string_key}
use keylime.Regex.{Regex}
use keylime.Failure.{SeverityLabel, Severities, label_or, first_match, severity_match}

-- Python's `x or default` at an optional list
abbrev pub or_default {ℓ} : {A : Type ℓ} → Option (List A) → List A → List A
or_default none d = d
or_default (some []) d = d
or_default (some (x ∷ xs)) d = x ∷ xs

abbrev pub last_of : String → List String → String
last_of x [] = x
last_of x (y ∷ l) = last_of y l

abbrev pub Labels : Type 0
Labels = List (String × SeverityLabel)

-- `for label, level in zip(labels_list, range(0, len(labels_list)))`
number_labels : ℕ → List String → Labels → Labels
number_labels level [] labels = labels
number_labels level (x ∷ l) labels =
    number_labels (suc level) l (put labels x (record { name = x; severity = level }))

abbrev pub default_labels : List String
default_labels = "info" ∷ "notice" ∷ "warning" ∷ "error" ∷ "critical" ∷ "alert" ∷ "emergency" ∷ []

-- what `_eval_severity_config` knows when it builds the rules
pub record Levels : Type 0 where
  pub labels : Labels
  pub label_max : SeverityLabel

-- `labels[labels_list[-1]]`; the list is never empty here, and its last label is always numbered
levels_of : List String → Levels
unfolding number_labels
levels_of [] = record { labels = []; label_max = record { name = ""; severity = 0 } }
levels_of (x ∷ l) =
    let labels = number_labels 0 (x ∷ l) [] in
    record {
      labels = labels;
      label_max = label_or (get labels (last_of x l)) (record { name = ""; severity = 0 });
    }

module _ (re : Regex String) where
  open re use {Pattern, compile, fullmatch}

  -- the nested function `rule`
  rule : Levels → Pattern → String → String → Option SeverityLabel
  rule lv policy_regex label_str event_id =
      if fullmatch policy_regex event_id
      then some (label_or (get lv.labels label_str) lv.label_max)
      else none

  -- the body of the loop that compiles the policies
  abbrev push_rule :
      Levels
      → Option Pattern
      → String
      → Option (List (String → Option SeverityLabel))
      → Option (List (String → Option SeverityLabel))
  push_rule lv none label_str rest = none
  push_rule lv (some regex) label_str none = none
  push_rule lv (some regex) label_str (some rules) = some (rule lv regex label_str ∷ rules)

  compile_rules : Levels → List (String × String) → Option (List (String → Option SeverityLabel))
  compile_rules lv [] = some []
  compile_rules lv ((event_id, label_str) ∷ policies) =
      push_rule lv (compile event_id) label_str (compile_rules lv policies)

  abbrev with_max :
      SeverityLabel → Option (List (String → Option SeverityLabel)) → Option Severities
  with_max label_max none = none
  with_max label_max (some rules) = some (record { rules = rules; max_severity_label = label_max })

  -- _eval_severity_config; a policy is its pair of `event_id` and `severity_label`
  unfoldable pub eval_severity_config :
      Option (List String) → Option (List (String × String)) → Option Severities
  unfolding levels_of compile_rules rule
  eval_severity_config severity_labels severity_policy =
      let labels_list = or_default severity_labels default_labels in
      let lv = levels_of labels_list in
      let policies = or_default severity_policy ((".*", last_of "" labels_list) ∷ []) in
      with_max lv.label_max (compile_rules lv policies)

  -- set_severity_config; the globals are replaced only when it returns
  unfoldable pub set_severity_config :
      Option (List String) → Option (List (String × String)) → Option Severities
  unfolding eval_severity_config
  set_severity_config (some (x ∷ l)) (some (p ∷ ps)) =
      eval_severity_config (some (x ∷ l)) (some (p ∷ ps))
  set_severity_config _ _ = none
