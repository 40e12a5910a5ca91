-- ===== src/Prelude/Dict.antt =====
-- Python's `dict`: an association list in insertion order, with a test for equality of keys.
use Prim.Native.Nat.{ℕ}
use Prim.Native.String.{String}
use mathlib.Core.Path.{◌≡◌, refl, subst}
use mathlib.Core.Bool.{Bool, true}
use mathlib.Core.List.{List, [], ◌∷◌}
use mathlib.Core.Logic.{◌↔◌}
use mathlib.Core.Option.{Option, none, some}
use native.Mathlib.Omega.{arith}
use text.Mathlib.Text.{◌==◌ as str_eq}
use text.Mathlib.TextEquality.{eq_iff}
use keylime.Prelude.Lists.{Bytes, bytes_eq, bytes_eq_sound, bytes_eq_refl}
use keylime.Prelude.Tests.{◌==◌, ==_iff, if◌then◌else◌}

pub record Key {ℓ} (K : Type ℓ) : Type ℓ where
  pub same : K → K → Bool
  pub same_iff : (a b : K) → (same a b ≡ true) ↔ (a ≡ b)

instance abbrev pub nat_key : Key ℕ
nat_key = record { same = ◌==◌; same_iff = ==_iff }

instance abbrev pub string_key : Key String
string_key = record { same = str_eq; same_iff = eq_iff }

pub bytes_eq_iff : (a b : Bytes) → (bytes_eq a b ≡ true) ↔ (a ≡ b)
bytes_eq_iff a b =
    (bytes_eq_sound a b, λ e. subst (λ (c : Bytes). bytes_eq a c ≡ true) e (bytes_eq_refl a))

instance abbrev pub bytes_key : Key Bytes
bytes_key = record { same = bytes_eq; same_iff = bytes_eq_iff }

module _ {ℓ κ} {K : Type ℓ} {V : Type κ} ⦃k : Key K⦄ where
  -- d.get(a)
  abbrev pub get : List (K × V) → K → Option V
  get [] a = none
  get ((b, v) ∷ d) a = if k.same b a then some v else get d a

  -- d[a] = v
  abbrev pub put : List (K × V) → K → V → List (K × V)
  put [] a v = (a, v) ∷ []
  put ((b, w) ∷ d) a v = if k.same b a then (b, v) ∷ d else (b, w) ∷ put d a v

  -- d.pop(a, None)
  abbrev pub remove : List (K × V) → K → List (K × V)
  remove [] a = []
  remove ((b, w) ∷ d) a = let rest = remove d a in if k.same b a then rest else (b, w) ∷ rest

  pub get-put :
      (d : List (K × V)) (a b : K) (v : V)
      → get (put d a v) b ≡ (if k.same a b then some v else get d b)
  get-put [] a b v = refl
  get-put ((c, w) ∷ d) a b v =
      ground (arith, get-put d a b v, k.same_iff a b, k.same_iff c a, k.same_iff c b)

  pub get-remove :
      (d : List (K × V)) (a b : K) → get (remove d a) b ≡ (if k.same a b then none else get d b)
  get-remove [] a b = ground arith
  get-remove ((c, w) ∷ d) a b =
      ground (arith, get-remove d a b, k.same_iff a b, k.same_iff c a, k.same_iff c b)

  pub get-put_self : (d : List (K × V)) (a : K) (v : V) → get (put d a v) a ≡ some v
  get-put_self d a v = ground (arith, get-put d a a v, k.same_iff a a)

pub ruleset dict_laws = (get-put, get-remove)
