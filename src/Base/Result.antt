-- ===== src/Base/Result.antt =====
-- Code that may raise: the result, or the exception as a value.
use mathlib.Core.Logic.{◌⊎◌, inl, inr}
use mathlib.Core.Path.{◌≡◌, refl, sym, ◌∙◌, subst}
use mathlib.Core.Bool.{Bool, true, false, not}
use mathlib.Core.Option.{Option, none, some}

pub data Result {ℓ κ} (E : Type ℓ) (A : Type κ) : Type (ℓ ⊔ κ) where
  ok : A → Result E A
  err : E → Result E A

infixl 5 ◌>>=◌ ◌>>◌
abbrev pub ◌>>=◌ {ε α β} :
    {E : Type ε} {A : Type α} {B : Type β} → Result E A → (next : A → Result E B) → Result E B
err problem >>= next = err problem
ok value >>= next = next value

abbrev pub ◌>>◌ {ε β} :
    {E : Type ε} {B : Type β} → Result E (Unit {0}) → (rest : Result E B) → Result E B
check >> rest = check >>= λ _. rest

-- `if test: raise e`
abbrev pub raise_if {ℓ} : {E : Type ℓ} → Bool → E → Result E (Unit {0})
raise_if true e = err e
raise_if false e = ok tt

-- What a chain of two parts that gives a result did.
pub >>=-eq-ok {ε α β} :
    {E : Type ε} {A : Type α} {B : Type β} (part : Result E A) (next : A → Result E B) {y : B}
    → (part >>= next) ≡ ok y
    → (x : A) × (part ≡ ok x) × (next x ≡ ok y)
>>=-eq-ok (err problem) next e = cc
>>=-eq-ok (ok x) next e = (x, refl, e)

pub Result-cases {ℓ κ} :
    {E : Type ℓ} {A : Type κ} (r : Result E A) → ((a : A) × (r ≡ ok a)) ⊎ ((e : E) × (r ≡ err e))
Result-cases (ok a) = inl (a, refl)
Result-cases (err e) = inr (e, refl)

-- a check that let the code go on
pub passed {ℓ} :
    {E : Type ℓ} (b : Bool) (e : E) {u : Unit {0}} → raise_if (not b) e ≡ ok u → b ≡ true
passed true e h = refl
passed false e h = cc

pub ok-injective {ℓ κ} :
    {E : Type ℓ} {A : Type κ} {a b : A} → ◌≡◌ {A = Result E A} (ok a) (ok b) → a ≡ b
ok-injective h = cc

pub not_raised {ℓ} :
    {E : Type ℓ} (b : Bool) (e : E) {u : Unit {0}} → raise_if b e ≡ ok u → b ≡ false
not_raised true e h = cc
not_raised false e h = refl

-- The value, or an exception where there is none.
abbrev pub from_option {ℓ κ} : {E : Type ℓ} {A : Type κ} → E → Option A → Result E A
from_option e none = err e
from_option e (some a) = ok a

-- what holds of the result of a part holds of any name for it
pub ok-determined {ε α κ} :
    {E : Type ε} {A : Type α} (P : A → Type κ) {part : Result E A} {x y : A}
    → part ≡ ok x
    → P x
    → part ≡ ok y
    → P y
ok-determined P e h f = subst P (ok-injective (sym e ∙ f)) h
