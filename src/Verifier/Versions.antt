-- ===== src/Verifier/Versions.antt =====
-- keylime/common/version.py, and update_agent_api_version of keylime/cloud_verifier_tornado.py: the
-- version of the API that is spoken with an agent. Texts are lists of their code points, in ASCII.
use keylime.Prelude.{
  ℕ, ◌+◌, ◌*◌, ◌-◌, ◌≡◌, refl, sym, ap, ◌∙◌, suc, inl, inr, Bool, true, false, not, ◌&&◌, ◌||◌,
  Option, none, some, List, [], ◌∷◌, Bytes, codes, any_of, bytes_eq, bytes_eq_sound, leb, ltb, ◌==◌,
  if◌then◌else◌, nonempty, Bool-cases, arith,
}
use keylime.Tpm.Struct.{◌>>=◌}

-- v_str.strip('" ')
abbrev is_stripped : ℕ → Bool
is_stripped c = c == 34 || c == 32

abbrev lstrip : Bytes → Bytes
lstrip [] = []
lstrip (c ∷ s) = let rest = lstrip s in if is_stripped c then rest else c ∷ s

abbrev rstrip : Bytes → Bytes
rstrip [] = []
rstrip (c ∷ s) =
    let rest = rstrip s in if is_stripped c && not (nonempty rest) then [] else c ∷ rest

abbrev is_digit : ℕ → Bool
is_digit c = leb 48 c && leb c 57

-- int of the digits that the text starts with, and what follows them
abbrev more_digits : ℕ → Bytes → ℕ × Bytes
more_digits n [] = (n, [])
more_digits n (c ∷ s) =
    let more = more_digits (n * 10 + (c - 48)) s in if is_digit c then more else (n, c ∷ s)

abbrev number : Bytes → Option (ℕ × Bytes)
number [] = none
number (c ∷ s) = if is_digit c then some (more_digits (c - 48) s) else none

abbrev after_dot : Bytes → Option (ℕ × Bytes)
after_dot [] = none
after_dot (c ∷ s) = if c == 46 then number s else none

-- `$` matches at the end, and before a last newline
abbrev at_end : Bytes → Bool
at_end [] = true
at_end (c ∷ s) = c == 10 && not (nonempty s)

unfoldable pub str_to_version : Bytes → Option (ℕ × ℕ)
str_to_version v_str = do
  (major, rest) ← number (rstrip (lstrip v_str))
  (minor, end) ← after_dot rest
  if at_end end then some (major, minor) else none

-- keylime_api_version.all_versions()
abbrev pub all_versions : List Bytes
all_versions = codes "1.0" ∷ codes "2.0" ∷ codes "2.1" ∷ codes "2.2" ∷ codes "2.3" ∷ []

abbrev pub is_supported : Bytes → Bool
is_supported v = any_of (bytes_eq v) all_versions

-- <= of pairs
abbrev pub version_le : ℕ × ℕ → ℕ × ℕ → Bool
version_le (a, b) (c, d) = ltb a c || (a == c && leb b d)

abbrev pub is_newer : Option (ℕ × ℕ) → Option (ℕ × ℕ) → Bool
is_newer (some new) (some old) = not (version_le new old)
is_newer _ _ = false

-- the agent's answer: the status, and the version of its JSON, if it has one
pub record VersionAnswer : Type 0 where
  pub status_code : ℕ
  pub supported_version : Option Bytes

abbrev bump : Bool → Bytes → Option Bytes → Bytes × Bool
bump committed version none = (version, false)
bump committed version (some new) =
    if is_supported new
    then if is_newer (str_to_version new) (str_to_version version)
      then (new, committed)
      else (version, false)
    else (version, false)

-- The agent's version afterwards, and whether the agent is returned. Whether the database has taken
-- the version is `committed`; the agent's dict has it in any case.
unfoldable pub update_agent_api_version : Bool → Bytes → VersionAnswer → Bytes × Bool
unfolding str_to_version
update_agent_api_version committed version answer =
    if answer.status_code == 200
    then bump committed version answer.supported_version
    else (version, false)

-- where a version stands in the list of them, which is in the order of their release
abbrev pub release : List Bytes → Bytes → ℕ
release [] v = 0
release (x ∷ xs) v = if bytes_eq x v then 0 else suc (release xs v)

-- the update by the order of release, without the numbers in the texts
abbrev move : Bool → Bytes → Bool → Option Bytes → Bytes × Bool
move committed version success none = (version, false)
move committed version success (some new) =
    if success
      && (is_supported new && ltb (release all_versions version) (release all_versions new))
    then (new, committed)
    else (version, false)

abbrev pub by_release : Bool → Bytes → VersionAnswer → Bytes × Bool
by_release committed version answer =
    move committed version (answer.status_code == 200) answer.supported_version

abbrev same : Bool → Bool → Bool
same true b = b
same false b = not b

same_eq : (a b : Bool) → same a b ≡ true → a ≡ b
same_eq true b h = sym h
same_eq false true h = cc
same_eq false false h = refl

abbrev every : (Bytes → Bool) → List Bytes → Bool
every p [] = true
every p (x ∷ xs) = p x && every p xs

every_found :
    (p : Bytes → Bool) (xs : List Bytes) (v : Bytes)
    → every p xs ≡ true
    → any_of (bytes_eq v) xs ≡ true
    → p v ≡ true
every_found p [] v h k = cc
every_found p (x ∷ xs) v h k = elim (Bool-cases (bytes_eq v x)) [
  | inl e ↦ ap p (bytes_eq_sound v x e) ∙ ground (arith, h)
  | inr e ↦ every_found p xs v (ground (arith, h)) (rw e at k)
]

-- of two versions, whether the numbers of the new one are higher as often as it is released later
abbrev agrees : Bytes → Bytes → Bool
agrees old new =
    same (is_newer (str_to_version new) (str_to_version old))
      (ltb (release all_versions old) (release all_versions new))

all_agree : every (λ old. every (agrees old) all_versions) all_versions ≡ true
unfolding str_to_version
all_agree = refl

newer_iff_later :
    (old new : Bytes)
    → is_supported old ≡ true
    → is_supported new ≡ true
    → is_newer (str_to_version new) (str_to_version old)
      ≡ ltb (release all_versions old) (release all_versions new)
newer_iff_later old new h k = same_eq _ _ (
    every_found (agrees old) all_versions new
      (every_found (λ v. every (agrees v) all_versions) all_versions old all_agree h) k)

-- An agent with a version that the verifier supports is moved to the one of the agent's answer exactly
-- if the answer is a success that names a supported version which was released later, as told from
-- the verifier's list and not from the numbers. The agent is returned if the database took it. In
-- every other case the version stays, and the agent is not returned.
pub update_agent_api_version-by_release :
    (committed : Bool) (version : Bytes) (answer : VersionAnswer)
    → is_supported version ≡ true
    → update_agent_api_version committed version answer ≡ by_release committed version answer
unfolding update_agent_api_version
update_agent_api_version-by_release committed version answer h =
    go (answer.status_code == 200) answer.supported_version
  where
    go :
        (success : Bool) (o : Option Bytes)
        → (if success then bump committed version o else (version, false))
          ≡ move committed version success o
    go true none = refl
    go false none = refl
    go false (some new) = refl
    go true (some new) = elim (Bool-cases (is_supported new)) [
      | inl s ↦ rw (s, newer_iff_later version new h s) refl
      | inr s ↦ rw s refl
    ]
