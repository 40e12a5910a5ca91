-- ===== src/Failure/Config/Bounds.antt =====
-- keylime/failure.py: every label that the configured rules give lies at or below the highest one.
use mathlib.Core.Path.{subst}
use keylime.Prelude.{
  ap, sym, some_inj, ℕ, suc, ◌+◌, ◌∙◌, ◌≤◌, ◌<◌, String, ◌≡◌, refl, inl, inr, Option, none, some,
  List, [], ◌∷◌, arith, length, All, str_eq, Bool-cases,
}
use keylime.Prelude.Dict.{get, put, get-put_self, string_key}
use keylime.Regex.{Regex}
use keylime.Failure.{SeverityLabel, Severities, label_or, first_match, severity_match}
use keylime.Failure.Config.{
  Labels, Levels, last_of, number_labels, levels_of, rule, push_rule, compile_rules, with_max,
  set_severity_config,
}

abbrev IsBelow : ℕ → SeverityLabel → Type 0
IsBelow n label = label.severity < n

abbrev AllBelow : ℕ → Labels → Type 0
AllBelow n = All (λ p. IsBelow n p.1)

AllBelow-mono : (m n : ℕ) (d : Labels) → m ≤ n → AllBelow m d → AllBelow n d
AllBelow-mono m n [] le h = tt
AllBelow-mono m n (p ∷ d) le h = (omega arith, AllBelow-mono m n d le h.1)

AllBelow-put :
    (n : ℕ) (d : Labels) (x : String) (v : SeverityLabel)
    → AllBelow n d
    → IsBelow n v
    → AllBelow n (put d x v)
AllBelow-put n [] x v h b = (b, tt)
AllBelow-put n ((y, w) ∷ d) x v h b = elim (Bool-cases (str_eq y x)) [
  | inl e ↦ rw e (b, h.1)
  | inr e ↦ rw e (h.0, AllBelow-put n d x v h.1 b)
]

AllBelow-number_labels :
    (l : List String) (n : ℕ) (d : Labels)
    → AllBelow n d
    → AllBelow (n + length l) (number_labels n l d)
unfolding number_labels
AllBelow-number_labels [] n d h = AllBelow-mono n (n + 0) d (omega arith) h
AllBelow-number_labels (x ∷ l) n d h =
    AllBelow-mono (suc n + length l) (n + suc (length l)) _ (omega arith) (
      AllBelow-number_labels l (suc n) _
        (AllBelow-put (suc n) d x _ (AllBelow-mono n (suc n) d (omega arith) h) (omega arith)))

-- The last of the names has the last number.
get-number_labels_last :
    (l : List String) (x : String) (n : ℕ) (d : Labels)
    → get (number_labels n (x ∷ l) d) (last_of x l)
      ≡ some (record { name = last_of x l; severity = n + length l })
unfolding number_labels
get-number_labels_last [] x n d =
    get-put_self d x _ ∙ (λ i. some (record { name = x; severity = zero_right i }))
  where
    zero_right : n ≡ n + 0
    zero_right = omega arith
get-number_labels_last (y ∷ l) x n d =
    get-number_labels_last l y (suc n) (put d x (record { name = x; severity = n }))
    ∙ (λ i. some (record { name = last_of y l; severity = step i }))
  where
    step : suc n + length l ≡ n + suc (length l)
    step = omega arith

get-AllBelow :
    (d : Labels) (n : ℕ) (x : String) (v : SeverityLabel)
    → AllBelow n d
    → get d x ≡ some v
    → IsBelow n v
get-AllBelow [] n x v h e = cc
get-AllBelow ((y, w) ∷ d) n x v h e = ground (arith, get-AllBelow d n x v h.1)

-- What is known of the numbered labels: the highest is the last, and no label lies above it.
record AreBounded (lv : Levels) : Type 0 where
  below : AllBelow (suc lv.label_max.severity) lv.labels

levels_of-AreBounded : (x : String) (l : List String) → AreBounded (levels_of (x ∷ l))
unfolding levels_of
levels_of-AreBounded x l = record {
  below = rw (get-number_labels_last l x 0 []) (
      AllBelow-mono (0 + length (x ∷ l)) (suc (0 + length l)) _ (omega arith)
        (AllBelow-number_labels (x ∷ l) 0 [] tt));
}

last_level :
    (x : String) (l : List String) → suc (levels_of (x ∷ l)).label_max.severity ≡ length (x ∷ l)
unfolding levels_of
last_level x l = rw (get-number_labels_last l x 0 []) (omega arith)

abbrev RuleBelow : ℕ → (String → Option SeverityLabel) → Type 0
RuleBelow n r = (id : String) (v : SeverityLabel) → r id ≡ some v → v.severity ≤ n

label_or-le :
    (o : Option SeverityLabel) (d v : SeverityLabel)
    → ((w : SeverityLabel) → o ≡ some w → IsBelow (suc d.severity) w)
    → some (label_or o d) ≡ some v
    → v.severity ≤ d.severity
label_or-le none d v h e = ground arith
label_or-le (some w) d v h e = ground (arith, h w refl)

first_match-le :
    (rules : List (String → Option SeverityLabel)) (n : ℕ) (id : String) (v : SeverityLabel)
    → All (RuleBelow n) rules
    → first_match rules id ≡ some v
    → v.severity ≤ n
unfolding first_match
first_match-le [] n id v h e = cc
first_match-le (r ∷ rules) n id v h e = ground (arith, h.0 id v, first_match-le rules n id v h.1)

module _ (re : Regex String) where
  open re use {Pattern, compile, fullmatch}

  rule-RuleBelow :
      (lv : Levels) (p : Pattern) (s : String)
      → AreBounded lv
      → RuleBelow lv.label_max.severity (rule re lv p s)
  unfolding rule
  rule-RuleBelow lv p s b id v h =
      label_or-le (get lv.labels s) lv.label_max v
        (λ w e. get-AllBelow lv.labels (suc lv.label_max.severity) s w b.below e) (ground arith)

  abbrev AllRulesBelow : ℕ → Option (List (String → Option SeverityLabel)) → Type 0
  AllRulesBelow n none = Unit
  AllRulesBelow n (some rules) = All (RuleBelow n) rules

  AllRulesBelow-push_rule :
      (lv : Levels) (o : Option Pattern) (s : String)
      (rest : Option (List (String → Option SeverityLabel)))
      → AreBounded lv
      → AllRulesBelow lv.label_max.severity rest
      → AllRulesBelow lv.label_max.severity (push_rule re lv o s rest)
  AllRulesBelow-push_rule lv none s rest b h = tt
  AllRulesBelow-push_rule lv (some p) s none b h = tt
  AllRulesBelow-push_rule lv (some p) s (some rules) b h = (rule-RuleBelow lv p s b, h)

  AllRulesBelow-compile_rules :
      (lv : Levels) (policies : List (String × String))
      → AreBounded lv
      → AllRulesBelow lv.label_max.severity (compile_rules re lv policies)
  unfolding compile_rules
  AllRulesBelow-compile_rules lv [] b = tt
  AllRulesBelow-compile_rules lv ((e, l) ∷ policies) b =
      AllRulesBelow-push_rule lv (compile e) l (compile_rules re lv policies) b
        (AllRulesBelow-compile_rules lv policies b)

  IsBelow-suc : {n : ℕ} (w : SeverityLabel) → w.severity ≤ n → IsBelow (suc n) w
  IsBelow-suc w h = omega arith

  severity_match-with_max :
      (label_max : SeverityLabel) (o : Option (List (String → Option SeverityLabel)))
      (s : Severities) (id : String)
      → AllRulesBelow label_max.severity o
      → with_max re label_max o ≡ some s
      → (severity_match s id).severity ≤ s.max_severity_label.severity
  unfolding severity_match
  severity_match-with_max m none s id b h = cc
  severity_match-with_max m (some rules) s id b h =
      subst (λ (t : Severities). (severity_match t id).severity ≤ t.max_severity_label.severity)
        (some_inj h)
        (label_or-le (first_match rules id) m (label_or (first_match rules id) m)
          (λ w e. IsBelow-suc w (first_match-le rules m.severity id w b e)) refl)

  max-with_max :
      (label_max : SeverityLabel) (o : Option (List (String → Option SeverityLabel)))
      (s : Severities)
      → with_max re label_max o ≡ some s
      → s.max_severity_label ≡ label_max
  max-with_max m none s h = cc
  max-with_max m (some rules) s h = sym (ap (λ (t : Severities). t.max_severity_label) (some_inj h))

  -- Whatever configuration is accepted, the highest level is the number of labels less one, and
  -- no event is given a label above it: an event whose policy names an unknown label, and one that
  -- no policy matches, included.
  pub severity_match-le_max :
      (labels : List String) (policy : List (String × String)) (s : Severities) (event_id : String)
      → set_severity_config re (some labels) (some policy) ≡ some s
      → ((severity_match s event_id).severity ≤ s.max_severity_label.severity)
        × (suc s.max_severity_label.severity ≡ length labels)
  unfolding set_severity_config
  severity_match-le_max [] policy s id h = cc
  severity_match-le_max (x ∷ l) [] s id h = cc
  severity_match-le_max (x ∷ l) (p ∷ ps) s id h = (
    severity_match-with_max (levels_of (x ∷ l)).label_max _ s id
        (AllRulesBelow-compile_rules (levels_of (x ∷ l)) (p ∷ ps) (levels_of-AreBounded x l)) h,
    ap (λ (label : SeverityLabel). suc label.severity) (max-with_max _ _ s h) ∙ last_level x l,
  )
