-- ===== src/Base/Tests.antt =====
-- Boolean tests, the conditional, and Go's `reflect.DeepEqual` as a decided equality.
use Prim.Native.Nat.{ℕ, compare, Ordering}
use Prim.Native.String.{String}
use mathlib.Core.Path.{◌≡◌, refl}
use mathlib.Core.Logic.{◌↔◌, ◌⊎◌, inl, inr}
use mathlib.Core.Bool.{Bool, true, false}
use mathlib.Core.Option.{Option, none, some}
use native.Mathlib.Omega.{arith}
use text.Mathlib.Text.{◌==◌}
use text.Mathlib.TextEquality.{eq_iff}

abbrev pub ltb : ℕ → ℕ → Bool
ltb a b = elim (compare a b) [ Ordering.lt ↦ true | _ ↦ false ]

abbrev pub leb : ℕ → ℕ → Bool
leb a b = elim (compare a b) [ Ordering.gt ↦ false | _ ↦ true ]

abbrev pub eqb : ℕ → ℕ → Bool
eqb a b = elim (compare a b) [ Ordering.eq ↦ true | _ ↦ false ]

infix 1 if◌then◌else◌
abbrev pub if◌then◌else◌ {ℓ} : {A : Type ℓ} → Bool → A → A → A
if true then x else y = x
if false then x else y = y

-- To split on a computed value and keep the equation.
pub Bool-cases : (b : Bool) → (b ≡ true) ⊎ (b ≡ false)
Bool-cases true = inl refl
Bool-cases false = inr refl

pub Option-cases {ℓ} : {A : Type ℓ} (o : Option A) → (o ≡ none) ⊎ ((a : A) × (o ≡ some a))
Option-cases none = inl refl
Option-cases (some a) = inr (a, refl)

String-decide : (s t : String) → (s == t ≡ true) ⊎ (s == t ≡ false) → Dec (s ≡ t)
String-decide s t (inl e) = yes ((eq_iff s t).0 e)
String-decide s t (inr e) = no (λ p. ground (arith, (eq_iff s t).1 p))

pub String-discrete : Discrete String
String-discrete s t = String-decide s t (Bool-cases (s == t))

-- `reflect.DeepEqual` at a type whose values are equal exactly when they are deeply equal: a map
-- is held in key order, and a nil map, slice or pointer differs from an empty one.
unfoldable pub deep_equal {ℓ} : {A : Type ℓ} → Discrete A → A → A → Bool
deep_equal d x y = elim (d x y) [ yes _ ↦ true | no _ ↦ false ]

deep_equal_decided {ℓ} :
    {A : Type ℓ} (x y : A) (d : Dec (x ≡ y))
    → (elim d as (λ _. Bool) [ yes _ ↦ true | no _ ↦ false ] ≡ true) ↔ (x ≡ y)
deep_equal_decided x y (yes p) = (λ _. p, λ _. refl)
deep_equal_decided x y (no n) = (λ e. cc, λ p. absurd (n p))

pub deep_equal_iff {ℓ} :
    {A : Type ℓ} (d : Discrete A) (x y : A) → (deep_equal d x y ≡ true) ↔ (x ≡ y)
unfolding deep_equal
deep_equal_iff d x y = deep_equal_decided x y (d x y)

pub deep_equal_refl {ℓ} : {A : Type ℓ} (d : Discrete A) (x : A) → deep_equal d x x ≡ true
deep_equal_refl d x = (deep_equal_iff d x x).1 refl
