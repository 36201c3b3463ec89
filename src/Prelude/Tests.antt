-- ===== src/Prelude/Tests.antt =====
-- Boolean tests, the conditional, an interface for types with a Boolean equality, and the `switch`
-- statement.
use Prim.Native.Nat.{ℕ, zero, suc, ◌≤◌, ◌<◌, compare, Ordering}
use Prim.Native.String.{String}
use mathlib.Core.Path.{◌≡◌, refl}
use mathlib.Core.Logic.{◌↔◌, ◌⊎◌, inl, inr}
use mathlib.Core.Bool.{Bool, true, false, ◌||◌, ◌&&◌}
use mathlib.Core.Option.{Option, none, some}
use mathlib.Core.List.{List, [], ◌∷◌}
use native.Mathlib.Omega.{arith}
use text.Mathlib.Text.{◌==◌ as str_eq}
use text.Mathlib.TextEquality.{eq_iff}

abbrev pub ltb : ℕ → ℕ → Bool
ltb a b = elim (compare a b) [ Ordering.lt ↦ true | _ ↦ false ]

abbrev pub leb : ℕ → ℕ → Bool
leb a b = elim (compare a b) [ Ordering.gt ↦ false | _ ↦ true ]

abbrev pub nat_beq : ℕ → ℕ → Bool
nat_beq a b = elim (compare a b) [ Ordering.eq ↦ true | _ ↦ false ]

infix 1 if◌then◌else◌
abbrev pub if◌then◌else◌ {ℓ} : {A : Type ℓ} → Bool → A → A → A
if true then x else y = x
if false then x else y = y

pub ltb→lt : (a b : ℕ) → ltb a b ≡ true → a < b
ltb→lt a b h = ground arith

pub lt→ltb : (a b : ℕ) → a < b → ltb a b ≡ true
lt→ltb a b h = ground arith

pub le→not-ltb : (a b : ℕ) → b ≤ a → ltb a b ≡ false
le→not-ltb a b h = ground arith

pub leb→le : (a b : ℕ) → leb a b ≡ true → a ≤ b
leb→le a b h = ground arith

pub le→leb : (a b : ℕ) → a ≤ b → leb a b ≡ true
le→leb a b h = ground arith

pub not_leb : (a b : ℕ) → b < a → leb a b ≡ false
not_leb a b h = ground arith

pub nat_beq_iff : (a b : ℕ) → (nat_beq a b ≡ true) ↔ (a ≡ b)
nat_beq_iff a b = ground arith

pub Bool-cases : (b : Bool) → (b ≡ true) ⊎ (b ≡ false)
Bool-cases true = inl refl
Bool-cases false = inr refl

pub Option-cases {ℓ} : {A : Type ℓ} (o : Option A) → (o ≡ none) ⊎ ((a : A) × (o ≡ some a))
Option-cases none = inl refl
Option-cases (some a) = inr (a, refl)

pub some-injective {ℓ} : {A : Type ℓ} (a b : A) → some a ≡ some b → a ≡ b
some-injective a b e = cc

-- The types whose values Go compares by `==`: a test, and that it decides equality.
pub record Comparable {ℓ} (A : Type ℓ) : Type ℓ where
  pub test : A → A → Bool
  pub decides : (x y : A) → (test x y ≡ true) ↔ (x ≡ y)

module _ {ℓ} {A : Type ℓ} ⦃o : Comparable A⦄ where
  infix 50 ◌==◌
  abbrev pub ◌==◌ : A → A → Bool
  x == y = o.test x y

  pub ==_refl : (x : A) → (x == x) ≡ true
  ==_refl x = (o.decides x x).1 refl

  -- Whether a case of a `switch` lists the key.
  abbrev pub elem : A → List A → Bool
  elem key [] = false
  elem key (k ∷ ks) = k == key || elem key ks

instance abbrev pub string_equality : Comparable String
string_equality = record { test = str_eq; decides = eq_iff }

instance abbrev pub nat_equality : Comparable ℕ
nat_equality = record { test = nat_beq; decides = nat_beq_iff }

-- `switch k { case a, b: v … default: d }`: the first case that lists the key.
abbrev pub switch {ℓ κ} :
    {A : Type ℓ} {B : Type κ} ⦃o : Comparable A⦄ → A → List (List A × B) → B → B
switch k [] d = d
switch k ((ks, v) ∷ cases) d = if elem k ks then v else switch k cases d

abbrev pub AllValues {ℓ κ μ} : {A : Type ℓ} {B : Type κ} → (B → Type μ) → List (List A × B) → Type μ
AllValues P [] = Unit
AllValues P ((ks, v) ∷ cases) = P v × AllValues P cases

-- What holds of every case's value and of the default holds of the result.
pub switch-AllValues {ℓ κ μ} :
    {A : Type ℓ} {B : Type κ} ⦃o : Comparable A⦄ (P : B → Type μ) (k : A)
    (cases : List (List A × B)) (d : B)
    → AllValues P cases
    → P d
    → P (switch k cases d)
switch-AllValues P k [] d h hd = hd
switch-AllValues P k ((ks, v) ∷ cases) d h hd = elim (Bool-cases (elem k ks)) [
  | inl hit ↦ rw hit h.0
  | inr miss ↦ rw miss (switch-AllValues P k cases d h.1 hd)
]

-- A test of every number below a bound, to decide a statement about few values by computation.
unfoldable pub every_below : ℕ → (ℕ → Bool) → Bool
every_below zero test = true
every_below (suc n) test = test n && every_below n test

pub every_below_sound :
    (n : ℕ) (test : ℕ → Bool) (d : ℕ) → every_below n test ≡ true → d < n → test d ≡ true
unfolding every_below
every_below_sound zero test d all h = absurd (omega arith)
every_below_sound (suc n) test d all h = ground (arith, every_below_sound n test d)
