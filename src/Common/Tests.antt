-- ===== src/Common/Tests.antt =====
-- Boolean tests: orders on numbers, the conditional, and one `==` for every type that the code
-- compares with `==`.
use Prim.Native.Nat.{ℕ, ◌≤◌, ◌<◌, compare, Ordering}
use Prim.Native.String.{String}
use mathlib.Core.Path.{◌≡◌, refl, sym}
use mathlib.Core.Logic.{◌↔◌, ◌≢◌, ◌⊎◌, inl, inr}
use mathlib.Core.Bool.{Bool, true, false}
use mathlib.Core.Option.{Option, none, some}
use native.Mathlib.Omega.{arith}
use text.Mathlib.Text.{◌==◌ as str_eq}
use text.Mathlib.TextEquality.{eq_iff}

abbrev pub ltb : ℕ → ℕ → Bool
ltb a b = elim (compare a b) [ Ordering.lt ↦ true | _ ↦ false ]

abbrev pub leb : ℕ → ℕ → Bool
leb a b = elim (compare a b) [ Ordering.gt ↦ false | _ ↦ true ]

abbrev pub nat_beq : ℕ → ℕ → Bool
nat_beq a b = elim (compare a b) [ Ordering.eq ↦ true | _ ↦ false ]

infix 1 if◌then◌else◌
abbrev pub if◌then◌else◌ {ℓ} : {A : Type ℓ} → Bool → A → A → A
if true then x else y = x
if false then x else y = y

pub ltb→lt : (a b : ℕ) → ltb a b ≡ true → a < b
ltb→lt a b h = ground arith

pub leb→le : (a b : ℕ) → leb a b ≡ true → a ≤ b
leb→le a b h = ground arith

pub nat_beq_iff : (a b : ℕ) → (nat_beq a b ≡ true) ↔ (a ≡ b)
nat_beq_iff a b = ground arith

pub Bool-cases : (b : Bool) → (b ≡ true) ⊎ (b ≡ false)
Bool-cases true = inl refl
Bool-cases false = inr refl

pub Option-cases {ℓ} : {A : Type ℓ} (o : Option A) → (o ≡ none) ⊎ ((a : A) × (o ≡ some a))
Option-cases none = inl refl
Option-cases (some a) = inr (a, refl)

-- A Boolean equality that decides the equality of values.
pub record Eq {ℓ} (T : Type ℓ) : Type ℓ where
  pub beq : T → T → Bool
  pub beq_iff : (x y : T) → (beq x y ≡ true) ↔ (x ≡ y)

infix 50 ◌==◌
abbrev pub ◌==◌ {ℓ} : {T : Type ℓ} ⦃equality : Eq T⦄ → T → T → Bool
◌==◌ ⦃equality⦄ = equality.beq

instance abbrev pub string_eq : Eq String
string_eq = record { beq = str_eq; beq_iff = eq_iff }

instance abbrev pub nat_eq : Eq ℕ
nat_eq = record { beq = nat_beq; beq_iff = nat_beq_iff }

-- The equality test of a type that `hlevel` decides.
abbrev pub dec_beq {ℓ} : {A : Type ℓ} {a b : A} → Dec (a ≡ b) → Bool
dec_beq (yes p) = true
dec_beq (no n) = false

pub dec_beq_iff {ℓ} : {A : Type ℓ} {a b : A} (d : Dec (a ≡ b)) → (dec_beq d ≡ true) ↔ (a ≡ b)
dec_beq_iff (yes p) = (λ _. p, λ _. refl)
dec_beq_iff (no n) = (λ h. ground arith, λ p. absurd (n p))

abbrev pub of_discrete {ℓ} : {A : Type ℓ} → Discrete A → Eq A
of_discrete d = record { beq = λ a b. dec_beq (d a b); beq_iff = λ a b. dec_beq_iff (d a b) }

module _ {ℓ} {A : Type ℓ} ⦃e : Eq A⦄ where
  pub beq_refl : (a : A) → (a == a) ≡ true
  beq_refl a = (e.beq_iff a a).1 refl

  pub eq_of_beq : (a b : A) → (a == b) ≡ true → a ≡ b
  eq_of_beq a b h = (e.beq_iff a b).0 h

  pub ne_of_beq : (a b : A) → (a == b) ≡ false → a ≢ b
  ne_of_beq a b h p = cc (h, (e.beq_iff a b).1 p)

  pub beq_ne : (a b : A) → a ≢ b → (a == b) ≡ false
  beq_ne a b h = elim (Bool-cases (a == b)) [ inl p ↦ absurd (h ((e.beq_iff a b).0 p)) | inr p ↦ p ]

  pub beq_comm : (a b : A) → (a == b) ≡ (b == a)
  beq_comm a b = elim (Bool-cases (a == b)) [
    | inl h ↦ sym (ground (arith, h, (e.beq_iff b a).1 (sym ((e.beq_iff a b).0 h))))
    | inr h ↦ ground (arith, h, (e.beq_iff a b).1, (e.beq_iff b a).0)
  ]

  -- The equality of optional values: `None` is equal to `None` alone.
  abbrev pub option_beq : Option A → Option A → Bool
  option_beq none none = true
  option_beq none (some _) = false
  option_beq (some _) none = false
  option_beq (some a) (some b) = a == b

  pub option_beq_iff : (a b : Option A) → (option_beq a b ≡ true) ↔ (a ≡ b)
  option_beq_iff none none = (λ _. refl, λ _. refl)
  option_beq_iff none (some b) = (λ h. cc, λ h. cc)
  option_beq_iff (some a) none = (λ h. cc, λ h. cc)
  option_beq_iff (some a) (some b) =
      (λ h. cc ((e.beq_iff a b).0 h), λ h. (e.beq_iff a b).1 (ground arith))

  instance abbrev pub option_eq : Eq (Option A)
  option_eq = record { beq = option_beq; beq_iff = option_beq_iff }
