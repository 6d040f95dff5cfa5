-- ===== src/Prelude/Tests.antt =====
-- The conditional, Python's truth of texts, and equality of optional texts.
use Prim.Native.Nat.{ℕ, compare, Ordering}
use Prim.Native.String.{String}
use mathlib.Core.Path.{◌≡◌, refl}
use mathlib.Core.Logic.{◌⊎◌, inl, inr}
use mathlib.Core.Bool.{Bool, true, false, not}
use mathlib.Core.Option.{Option, none, some}
use text.Mathlib.Text.{◌==◌}
use text.Mathlib.TextEquality.{eq_iff}

infix 1 if◌then◌else◌
abbrev pub if◌then◌else◌ {ℓ} : {A : Type ℓ} → Bool → A → A → A
if true then x else y = x
if false then x else y = y

-- The comparison of two numbers: `a == b`.
abbrev pub nat_eq : ℕ → ℕ → Bool
nat_eq a b = elim (compare a b) [ Ordering.eq ↦ true | _ ↦ false ]

abbrev pub bool_eq : Bool → Bool → Bool
bool_eq true b = b
bool_eq false b = not b

-- A text counts as true unless it is empty.
abbrev pub truthy : String → Bool
truthy s = not (s == "")

-- `None` and the empty text count as false.
abbrev pub set? : Option String → Bool
set? none = false
set? (some s) = truthy s

-- `x == y` where either may be `None`.
abbrev pub opt_eq : Option String → Option String → Bool
opt_eq none none = true
opt_eq (some a) (some b) = a == b
opt_eq _ _ = false

pub Bool-cases : (b : Bool) → (b ≡ true) ⊎ (b ≡ false)
Bool-cases true = inl refl
Bool-cases false = inr refl

pub Option-cases {ℓ} : {A : Type ℓ} (o : Option A) → (o ≡ none) ⊎ ((a : A) × (o ≡ some a))
Option-cases none = inl refl
Option-cases (some a) = inr (a, refl)

pub opt_eq→eq : (a b : Option String) → opt_eq a b ≡ true → a ≡ b
opt_eq→eq none none h = refl
opt_eq→eq (some x) (some y) h = cc ((eq_iff x y).0 h)
opt_eq→eq none (some y) h = cc
opt_eq→eq (some x) none h = cc

pub eq→opt_eq : (a b : Option String) → a ≡ b → opt_eq a b ≡ true
eq→opt_eq none none h = refl
eq→opt_eq (some x) (some y) h = (eq_iff x y).1 (cc)
eq→opt_eq none (some y) h = absurd (cc)
eq→opt_eq (some x) none h = absurd (cc)
