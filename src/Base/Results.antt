-- ===== src/Base/Results.antt =====
-- Errors as values. The three sentinel errors of internal/storage/postgres.go, and any other error
-- with its message.
use Prim.Native.String.{String}
use mathlib.Core.Path.{◌≡◌, refl, subst}
use mathlib.Core.Bool.{Bool, true, false}
use mathlib.Core.Option.{Option, none, some}

pub data Error : Type 0 where
  not_found conflict lease_lost : Error
  other : String → Error

-- What a Go function returns beside its error.
pub data Result {ℓ} (Value : Type ℓ) : Type ℓ where
  err : Error → Result Value
  ok : Value → Result Value

-- `if err != nil { return err }` after a call.
infixl 10 ◌>>=◌
unfoldable pub ◌>>=◌ {κ ℓ} :
    {Value : Type κ} {Next : Type ℓ} → Result Value → (Value → Result Next) → Result Next
err stop >>= next = err stop
ok value >>= next = next value

infixl 10 ◌>>◌
abbrev pub ◌>>◌ {ℓ} : {Next : Type ℓ} → Result (Unit {0}) → Result Next → Result Next
check >> rest = check >>= λ _. rest

-- `if cond { return err }`.
unfoldable pub refuse_if : Bool → Error → Result (Unit {0})
refuse_if false e = ok tt
refuse_if true e = err e

-- `QueryRow(...).Scan(...)`: no row is an error that the caller maps.
unfoldable pub or_fail {ℓ} : {A : Type ℓ} → Option A → Error → Result A
or_fail none e = err e
or_fail (some a) e = ok a

-- A block that returns a value has had a value from its first call.
pub >>=-eq-ok {κ ℓ} :
    {Value : Type κ} {Next : Type ℓ} (first : Result Value) (rest : Value → Result Next)
    {last : Next}
    → (first >>= rest) ≡ ok last
    → (value : Value) × (first ≡ ok value) × (rest value ≡ ok last)
unfolding ◌>>=◌
>>=-eq-ok (err stop) rest h = absurd (cc)
>>=-eq-ok (ok value) rest h = (value, refl, h)

pub or_fail-eq-ok {ℓ} :
    {A : Type ℓ} (o : Option A) (e : Error) {a : A} → or_fail o e ≡ ok a → o ≡ some a
unfolding or_fail
or_fail-eq-ok none e h = absurd (cc)
or_fail-eq-ok (some b) e h = cc

pub refuse_if-eq-ok : (b : Bool) (e : Error) {u : Unit {0}} → refuse_if b e ≡ ok u → b ≡ false
unfolding refuse_if
refuse_if-eq-ok true e h = absurd (cc)
refuse_if-eq-ok false e h = refl

-- What holds of every value that a computation returns.
pub record Holds {ℓ κ} {A : Type ℓ} (P : A → Type κ) (r : Result A) : Type (ℓ ⊔ κ) where
  pub at : (a : A) → r ≡ ok a → P a

module _ {ℓ κ μ} {A : Type ℓ} {B : Type κ} (P : B → Type μ) where
  -- The rest of a block may use how the first step ended.
  pub Holds-bind :
      (m : Result A) (f : A → Result B) → ((a : A) → m ≡ ok a → Holds P (f a)) → Holds P (m >>= f)
  Holds-bind m f k = record {
    at = λ b h. let (a, first, rest) = >>=-eq-ok m f h in (k a first).at b rest;
  }

pub Holds-ok {ℓ κ} : {A : Type ℓ} (P : A → Type κ) {a : A} → P a → Holds P (ok a)
Holds-ok P {a} h = record { at = λ b e. subst P (ok-injective e) h }
  where
    ok-injective : {b : _} → ok a ≡ ok b → a ≡ b
    ok-injective e = cc
