-- ===== src/Common/Action.antt =====
-- A method: it reads and writes its object, and returns or raises. What was written before an
-- exception stays written.
use mathlib.Core.Path.{◌≡◌, refl, ap}
use native.Mathlib.Omega.{arith}
use mathlib.Core.Bool.{Bool, true, false}
use kemtls.Common.Tests.{if◌then◌else◌}
use kemtls.Common.Error.{Error, Result, ok, raised}

abbrev pub Action : Type 0 → Type 0 → Type 0
Action S A = S → Result A × S

module _ {S A : Type 0} where
  abbrev pub pure : A → Action S A
  pure a s = (ok a, s)

  abbrev pub raise : Error → Action S A
  raise e s = (raised e, s)

  abbrev pub lift : Result A → Action S A
  lift r s = (r, s)

  abbrev pub gets : (S → A) → Action S A
  gets f s = (ok (f s), s)

infixl 5 ◌>>=◌ ◌>>◌
abbrev pub ◌>>=◌ : {S A B : Type 0} → Action S A → (A → Action S B) → Action S B
◌>>=◌ m f s = let (r, s') = m s in elim r [ ok a ↦ f a s' | raised e ↦ (raised e, s') ]

abbrev pub ◌>>◌ : {S B : Type 0} → Action S (Unit {0}) → Action S B → Action S B
m >> k = m >>= λ _. k

abbrev pub modify : {S : Type 0} → (S → S) → Action S (Unit {0})
modify f s = (ok tt, f s)

-- `if bad: raise e`
abbrev pub fail_if : {S : Type 0} → Bool → Error → Action S (Unit {0})
fail_if true e s = (raised e, s)
fail_if false e s = (ok tt, s)

-- Inversion of a block that returns.
outcome_inv :
    {S A B : Type 0} (o : Result A × S) (f : A → Action S B) {b : B} {s2 : S}
    → ((λ _. o) >>= f) o.1 ≡ (ok b, s2)
    → (a : A) × (s1 : S) × (o ≡ (ok a, s1)) × (f a s1 ≡ (ok b, s2))
outcome_inv (ok a, s1) f h = (a, s1, refl, h)
outcome_inv (raised e, s1) f h = absurd (ground arith)

pub >>=-eq-ok :
    {S A B : Type 0} (m : Action S A) (f : A → Action S B) (s : S) {b : B} {s2 : S}
    → (m >>= f) s ≡ (ok b, s2)
    → (a : A) × (s1 : S) × (m s ≡ (ok a, s1)) × (f a s1 ≡ (ok b, s2))
>>=-eq-ok m f s h = outcome_inv (m s) f h

-- The same for a first step that leaves the object alone, `lift r`.
pub lift_inv :
    {S A B : Type 0} (r : Result A) (f : A → Result B × S) (s : S) {b : B} {s2 : S}
    → elim r [ ok a ↦ f a | raised e ↦ (raised e, s) ] ≡ (ok b, s2)
    → (a : A) × (r ≡ ok a) × (f a ≡ (ok b, s2))
lift_inv (ok a) f s h = (a, refl, h)
lift_inv (raised e) f s h = absurd (ground arith)

pub pure_inv :
    {S A : Type 0} {a b : A} {s t : S}
    → ◌≡◌ {A = Result A × S} (ok a, s) (ok b, t)
    → (a ≡ b) × (s ≡ t)
pure_inv h = (cc, cc)

-- A first step that returns.
pub lift-eq :
    {S A B : Type 0} (r : Result A) (f : A → Result B × S) (s : S) {a : A}
    → r ≡ ok a
    → ◌≡◌ {A = Result B × S} (elim r [ ok a ↦ f a | raised e ↦ (raised e, s) ]) (f a)
lift-eq r f s h = rw h refl

pub outcome_eq :
    {S A : Type 0} {r : Result A} {b : Result A} {s t : S}
    → ◌≡◌ {A = Result A × S} (r, s) (b, t)
    → (r ≡ b) × (s ≡ t)
outcome_eq h = (cc, cc)

pub >>=-eq :
    {S A B : Type 0} (m : Action S A) (f : A → Action S B) (s : S) {a : A} {s1 : S}
    → m s ≡ (ok a, s1)
    → (m >>= f) s ≡ f a s1
>>=-eq {S} {A} {B} m f s h = ap (λ (o : Result A × S). ((λ (t : S). o) >>= f) s) h

pub lift-eq-raised :
    {S A B : Type 0} (r : Result A) (f : A → Result B × S) (s : S) {e : Error}
    → r ≡ raised e
    → ◌≡◌ {A = Result B × S} (elim r [ ok a ↦ f a | raised e ↦ (raised e, s) ]) (raised e, s)
lift-eq-raised r f s h = rw h refl

-- What holds after a method: one thing of its result and the object if it returns, another of the
-- object if it raises.
abbrev pub Outcome : {S A : Type 0} → (A → S → Type 0) → (S → Type 0) → Result A × S → Type 0
Outcome Q R (ok a, s) = Q a s
Outcome Q R (raised e, s) = R s

-- `m` establishes `Q`, or raises and leaves `R`, wherever `P` holds.
pub record Ensures {S A : Type 0} (P : S → Type 0) (m : Action S A) (Q : A → S → Type 0)
    (R : S → Type 0) : Type 0 where
  pub holds : (s : S) → P s → Outcome Q R (m s)

Outcome-bind :
    {S A B : Type 0} (Q : A → S → Type 0) (Q' : B → S → Type 0) (R : S → Type 0) (o : Result A × S)
    (f : A → Action S B)
    → Outcome Q R o
    → ((a : A) (t : S) → Q a t → Outcome Q' R (f a t))
    → Outcome Q' R (((λ (t : S). o) >>= f) o.1)
Outcome-bind Q Q' R (ok a, t) f h k = k a t h
Outcome-bind Q Q' R (raised e, t) f h k = h

pub Ensures->>= :
    {S A B : Type 0} {P : S → Type 0} {Q' : B → S → Type 0} {R : S → Type 0} {Q : A → S → Type 0}
    (m : Action S A) {f : A → Action S B}
    → Ensures P m Q R
    → ((a : A) → Ensures (Q a) (f a) Q' R)
    → Ensures P (m >>= f) Q' R
Ensures->>= {Q'} {R} {Q} m {f} h k = record {
  holds = λ s p. Outcome-bind Q Q' R (m s) f (h.holds s p) λ a t q. (k a).holds t q;
}

Outcome-lift :
    {S A : Type 0} (P R : S → Type 0) (s : S)
    → P s
    → R s
    → (r : Result A) → Outcome (λ a. P) R (lift r s)
Outcome-lift P R s p q (ok a) = p
Outcome-lift P R s p q (raised e) = q

-- Steps that leave the object alone.
pub Ensures-lift :
    {S A : Type 0} {P R : S → Type 0} (r : Result A)
    → ((s : S) → P s → R s)
    → Ensures P (lift r) (λ a. P) R
Ensures-lift {P} {R} r h = record { holds = λ s p. Outcome-lift P R s p (h s p) r }

pub Ensures-gets : {S A : Type 0} {P R : S → Type 0} (f : S → A) → Ensures P (gets f) (λ a. P) R
Ensures-gets f = record { holds = λ s p. p }

pub Ensures-modify :
    {S : Type 0} {P Q R : S → Type 0} (f : S → S)
    → ((s : S) → P s → Q (f s))
    → Ensures P (modify f) (λ u. Q) R
Ensures-modify f h = record { holds = λ s p. h s p }

pub Ensures-pure :
    {S A : Type 0} {P R : S → Type 0} {Q : A → S → Type 0} (a : A)
    → ((s : S) → P s → Q a s)
    → Ensures P (pure a) Q R
Ensures-pure a h = record { holds = λ s p. h s p }

-- A step that may change the object whether it returns or raises.
pub Ensures-step :
    {S A : Type 0} {P R : S → Type 0} (m : Action S A)
    → ((s : S) → P s → R (m s).1)
    → Ensures P m (λ a. R) R
Ensures-step {R} m h = record { holds = λ s p. Outcome-lift R R (m s).1 (h s p) (h s p) (m s).0 }

pub Ensures-if :
    {S A : Type 0} {P : S → Type 0} {Q : A → S → Type 0} {R : S → Type 0} (b : Bool)
    (m k : Action S A)
    → Ensures P m Q R
    → Ensures P k Q R
    → Ensures P (if b then m else k) Q R
Ensures-if true m k hm hk = hm
Ensures-if false m k hm hk = hk

-- The same test, made once the object is given.
pub Ensures-if_at :
    {S A : Type 0} {P : S → Type 0} {Q : A → S → Type 0} {R : S → Type 0} (b : Bool)
    (m k : Action S A)
    → Ensures P m Q R
    → Ensures P k Q R
    → Ensures P (λ s. if b then m s else k s) Q R
Ensures-if_at true m k hm hk = record { holds = hm.holds }
Ensures-if_at false m k hm hk = record { holds = hk.holds }

Outcome-weaken :
    {S A : Type 0} (Q Q' : A → S → Type 0) (R R' : S → Type 0)
    → ((a : A) (s : S) → Q a s → Q' a s)
    → ((s : S) → R s → R' s)
    → (o : Result A × S) → Outcome Q R o
    → Outcome Q' R' o
Outcome-weaken Q Q' R R' hq hr (ok a, s) h = hq a s h
Outcome-weaken Q Q' R R' hq hr (raised e, s) h = hr s h

pub Ensures-weaken :
    {S A : Type 0} {P : S → Type 0} {Q Q' : A → S → Type 0} {R R' : S → Type 0} (m : Action S A)
    → Ensures P m Q R
    → ((a : A) (s : S) → Q a s → Q' a s)
    → ((s : S) → R s → R' s)
    → Ensures P m Q' R'
Ensures-weaken {Q} {Q'} {R} {R'} m h hq hr = record {
  holds = λ s p. Outcome-weaken Q Q' R R' hq hr (m s) (h.holds s p);
}

-- What holds however the method ends.
pub outcome_after :
    {S A : Type 0} (R : S → Type 0) (o : Result A × S) → Outcome (λ a. R) R o → R o.1
outcome_after R (ok a, s) h = h
outcome_after R (raised e, s) h = h

Outcome-lift_value :
    {S A : Type 0} (P R : S → Type 0) (s : S)
    → P s
    → R s
    → (r : Result A) → Outcome (λ a t. P t × (r ≡ ok a)) R (lift r s)
Outcome-lift_value P R s p q (ok a) = (p, refl)
Outcome-lift_value P R s p q (raised e) = q

-- The value is what the step returned.
pub Ensures-lift_value :
    {S A : Type 0} {P R : S → Type 0} (r : Result A)
    → ((s : S) → P s → R s)
    → Ensures P (lift r) (λ a s. P s × (r ≡ ok a)) R
Ensures-lift_value {P} {R} r h = record { holds = λ s p. Outcome-lift_value P R s p (h s p) r }

Outcome-same :
    {S A B : Type 0} (Q : A → S → Type 0) (R : S → Type 0) (o : Result A × S) (f g : A → Action S B)
    → Outcome Q R o
    → ((a : A) (t : S) → Q a t → f a t ≡ g a t)
    → ((λ (t : S). o) >>= f) o.1 ≡ ((λ (t : S). o) >>= g) o.1
Outcome-same Q R (ok a, t) f g h same = same a t h
Outcome-same Q R (raised e, t) f g h same = refl

-- Two methods with the same first step, and the same rest wherever this step returns.
pub Ensures-same :
    {S A B : Type 0} {P : S → Type 0} {Q : A → S → Type 0} {R : S → Type 0} (m : Action S A)
    (f g : A → Action S B) (s : S)
    → Ensures P m Q R
    → P s
    → ((a : A) (t : S) → Q a t → f a t ≡ g a t)
    → (m >>= f) s ≡ (m >>= g) s
Ensures-same {Q} {R} m f g s h p same = Outcome-same Q R (m s) f g (h.holds s p) same

-- The value read is that of the object.
pub Ensures-gets_value :
    {S A : Type 0} {P R : S → Type 0} (f : S → A) → Ensures P (gets f) (λ a s. P s × (a ≡ f s)) R
Ensures-gets_value f = record { holds = λ s p. (p, refl) }

module _ {S A : Type 0} {P : S → Type 0} {Q : A → S → Type 0} {R : S → Type 0} (b : Bool)
    (m k : Action S A) where
  -- A test whose outcome is known.
  pub Ensures-if_true :
      ((s : S) → P s → b ≡ true) → Ensures P m Q R → Ensures P (if b then m else k) Q R
  Ensures-if_true known hm = record { holds = λ s p. rw (known s p) (hm.holds s p) }

  pub Ensures-if_at_true :
      ((s : S) → P s → b ≡ true) → Ensures P m Q R → Ensures P (λ s. if b then m s else k s) Q R
  Ensures-if_at_true known hm = record { holds = λ s p. rw (known s p) (hm.holds s p) }

  pub Ensures-if_false :
      ((s : S) → P s → b ≡ false) → Ensures P k Q R → Ensures P (if b then m else k) Q R
  Ensures-if_false known hk = record { holds = λ s p. rw (known s p) (hk.holds s p) }

  pub Ensures-if_at_false :
      ((s : S) → P s → b ≡ false) → Ensures P k Q R → Ensures P (λ s. if b then m s else k s) Q R
  Ensures-if_at_false known hk = record { holds = λ s p. rw (known s p) (hk.holds s p) }
