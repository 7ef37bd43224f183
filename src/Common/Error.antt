-- ===== src/Common/Error.antt =====
-- Python exceptions as values. The text is the message, without the values of an f-string.
use mathlib.Core.Path.{◌≡◌, refl}
use mathlib.Core.Logic.{◌⊎◌, inl, inr}
use mathlib.Core.Bool.{Bool, true, false}
use mathlib.Core.Option.{Option, none, some}
use Prim.Native.String.{String}

-- `out_of_fuel` is no exception: it marks a loop of the model whose fuel was too small.
pub data Error : Type 0 where
  value_error type_error overflow_error eof_error key_error runtime_error struct_error
        attribute_error index_error timeout_error :
      String → Error
  out_of_fuel : Error

pub data Result {ℓ} (A : Type ℓ) : Type ℓ where
  ok : A → Result A
  raised : Error → Result A

infixl 5 ◌>>=◌ ◌>>◌
-- What follows a call that returned; an exception passes it by.
abbrev pub ◌>>=◌ {ℓ κ} : {V : Type ℓ} {W : Type κ} → Result V → (follows : V → Result W) → Result W
raised error >>= follows = raised error
ok value >>= follows = follows value

abbrev pub ◌>>◌ {ℓ} : {W : Type ℓ} (check : Result (Unit {0})) (rest : Result W) → Result W
check >> rest = check >>= λ done. rest

-- `if bad: raise e`
abbrev pub raise_if : Bool → Error → Result (Unit {0})
raise_if true e = raised e
raise_if false e = ok tt

abbrev pub or_raise {ℓ} : {A : Type ℓ} → Option A → Error → Result A
or_raise none e = raised e
or_raise (some a) e = ok a

-- A chain returned a value: so did its first call, and what follows it.
pub >>=-eq-ok {ℓ κ} :
    {V : Type ℓ} {W : Type κ} (first : Result V) (follows : V → Result W) {w : W}
    → (first >>= follows) ≡ ok w
    → (v : V) × (first ≡ ok v) × (follows v ≡ ok w)
>>=-eq-ok (raised error) follows returned = cc
>>=-eq-ok (ok v) follows returned = (v, refl, returned)

pub Result-cases {ℓ} :
    {A : Type ℓ} (r : Result A) → ((a : A) × (r ≡ ok a)) ⊎ ((e : Error) × (r ≡ raised e))
Result-cases (ok a) = inl (a, refl)
Result-cases (raised e) = inr (e, refl)

pub or_raise_inv {ℓ} :
    {A : Type ℓ} (o : Option A) (e : Error) {a : A} → or_raise o e ≡ ok a → o ≡ some a
or_raise_inv none e h = cc
or_raise_inv (some b) e h = cc

pub raise_if_inv : (b : Bool) (e : Error) {u : Unit {0}} → raise_if b e ≡ ok u → b ≡ false
raise_if_inv true e h = cc
raise_if_inv false e h = refl

pub ok_injective {ℓ} : {A : Type ℓ} {a b : A} → ok a ≡ ok b → a ≡ b
ok_injective h = cc
