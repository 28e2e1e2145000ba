-- ===== src/Prelude/Tests.antt =====
-- Boolean tests, the conditional, and the equality of texts and numbers as a decision.
use Prim.Native.Nat.{ℕ, compare, Ordering}
use Prim.Native.String.{String}
use mathlib.Core.Path.{◌≡◌, refl, sym, ◌∙◌}
use mathlib.Core.Logic.{◌⊎◌, inl, inr}
use mathlib.Core.Bool.{Bool, true, false, false≢true}
use mathlib.Core.Option.{Option, none, some}
use native.Mathlib.Decide.{ℕ_discrete}
use text.Mathlib.Text.{◌==◌ as str_eq}
use text.Mathlib.TextEquality.{eq_iff}

abbrev pub ltb : ℕ → ℕ → Bool
ltb a b = elim (compare a b) [ Ordering.lt ↦ true | _ ↦ false ]

abbrev pub leb : ℕ → ℕ → Bool
leb a b = elim (compare a b) [ Ordering.gt ↦ false | _ ↦ true ]

infix 1 if◌then◌else◌
abbrev pub if◌then◌else◌ {ℓ} : {A : Type ℓ} → Bool → A → A → A
if true then x else y = x
if false then x else y = y

pub Bool-cases : (b : Bool) → (b ≡ true) ⊎ (b ≡ false)
Bool-cases true = inl refl
Bool-cases false = inr refl

pub Option-cases {ℓ} : {A : Type ℓ} (o : Option A) → (o ≡ none) ⊎ ((a : A) × (o ≡ some a))
Option-cases none = inl refl
Option-cases (some a) = inr (a, refl)

pub str_eq_sound : (s t : String) → str_eq s t ≡ true → s ≡ t
str_eq_sound s t e = (eq_iff s t).0 e

pub str_eq_complete : (s t : String) → str_eq s t ≡ false → ¬ (s ≡ t)
str_eq_complete s t e p = false≢true (sym e ∙ (eq_iff s t).1 p)

decide_text : (s t : String) (b : Bool) → str_eq s t ≡ b → Dec (s ≡ t)
decide_text s t true e = yes (str_eq_sound s t e)
decide_text s t false e = no (str_eq_complete s t e)

-- Texts are compared by their native order, and the answer carries its proof.
unfoldable pub string_discrete : Discrete String
unfolding decide_text
string_discrete s t = decide_text s t (str_eq s t) refl

pub record Eq {ℓ} (A : Type ℓ) : Type ℓ where
  pub discrete : Discrete A

instance abbrev pub string_eq : Eq String
string_eq = record { discrete = string_discrete }

instance abbrev pub ℕ_eq : Eq ℕ
ℕ_eq = record { discrete = ℕ_discrete }

abbrev pub is_yes {ℓ} : {A : Type ℓ} → Dec A → Bool
is_yes (yes _) = true
is_yes (no _) = false

infix 50 ◌==◌
abbrev pub ◌==◌ {ℓ} : {A : Type ℓ} ⦃e : Eq A⦄ → A → A → Bool
◌==◌ ⦃e⦄ a b = is_yes (e.discrete a b)

-- `optional.has_value() && *optional == value`.
abbrev pub holds {ℓ} : {A : Type ℓ} ⦃e : Eq A⦄ → Option A → A → Bool
holds none a = false
holds (some b) a = b == a
