-- ===== src/Common/Dict.antt =====
-- Python's `dict`, in insertion order, and `set`, over keys with a decidable equality.
use Prim.Native.Nat.{ℕ}
use mathlib.Core.Path.{◌≡◌, refl}
use mathlib.Core.Logic.{◌↔◌, ◌≢◌, inl, inr}
use mathlib.Core.Bool.{Bool, true, false, ◌||◌}
use mathlib.Core.Option.{Option, none, some}
use mathlib.Core.List.{List, [], ◌∷◌}
use native.Mathlib.Omega.{arith}
use mathlib.Core.Path.{subst}
use kemtls.Common.Lists.{All}
use kemtls.Common.Tests.{◌==◌, ==_iff, str_eq, str_eq_iff, if◌then◌else◌, Bool-cases}

pub record Eq {ℓ} (A : Type ℓ) : Type ℓ where
  pub beq : A → A → Bool
  pub beq_iff : (a b : A) → (beq a b ≡ true) ↔ (a ≡ b)

instance abbrev pub nat_eq : Eq ℕ
nat_eq = record { beq = ◌==◌; beq_iff = ==_iff }

instance abbrev pub text_eq : Eq (List ℕ)
text_eq = record { beq = str_eq; beq_iff = str_eq_iff }

abbrev pub Dict {ℓ κ} : Type ℓ → Type κ → Type (ℓ ⊔ κ)
Dict K V = List (K × V)

module _ {ℓ κ} {K : Type ℓ} {V : Type κ} ⦃e : Eq K⦄ where
  -- `d.get(k)`
  unfoldable pub get : K → Dict K V → Option V
  get k [] = none
  get k ((j, v) ∷ d) = if e.beq j k then some v else get k d

  -- `d[k] = v`: a known key keeps its place.
  unfoldable pub put : K → V → Dict K V → Dict K V
  put k v [] = (k, v) ∷ []
  put k v ((j, w) ∷ d) = if e.beq j k then (j, v) ∷ d else (j, w) ∷ put k v d

  -- `del d[k]`, `d.pop(k, None)`
  unfoldable pub remove : K → Dict K V → Dict K V
  remove k [] = []
  remove k ((j, w) ∷ d) = let rest = remove k d in if e.beq j k then rest else (j, w) ∷ rest

  pub get-put :
      (k j : K) (v : V) (d : Dict K V) → get j (put k v d) ≡ (if e.beq k j then some v else get j d)
  unfolding get put
  get-put k j v [] = refl
  get-put k j v ((i, w) ∷ d) =
      ground (arith, e.beq_iff k j, e.beq_iff i k, e.beq_iff i j, get-put k j v d)

  pub get-remove :
      (k j : K) (d : Dict K V) → get j (remove k d) ≡ (if e.beq k j then none else get j d)
  unfolding get remove
  get-remove k j [] = ground arith
  get-remove k j ((i, w) ∷ d) =
      ground (arith, e.beq_iff k j, e.beq_iff i k, e.beq_iff i j, get-remove k j d)

  pub get-put_self : (k : K) (v : V) (d : Dict K V) → get k (put k v d) ≡ some v
  get-put_self k v d = ground (arith, get-put k k v d, e.beq_iff k k)

  pub get-put_ne : (k j : K) (v : V) (d : Dict K V) → k ≢ j → get j (put k v d) ≡ get j d
  get-put_ne k j v d h = ground (arith, get-put k j v d, e.beq_iff k j)

  pub get-remove_self : (k : K) (d : Dict K V) → get k (remove k d) ≡ none
  get-remove_self k d = ground (arith, get-remove k k d, e.beq_iff k k)

  pub get-remove_ne : (k j : K) (d : Dict K V) → k ≢ j → get j (remove k d) ≡ get j d
  get-remove_ne k j d h = ground (arith, get-remove k j d, e.beq_iff k j)

abbrev pub map_found {ℓ κ} : {V : Type ℓ} {W : Type κ} → (V → W) → Option V → Option W
map_found f none = none
map_found f (some v) = some (f v)

module _ {ℓ κ ι} {K : Type ℓ} {V : Type κ} {W : Type ι} ⦃e : Eq K⦄ where
  -- `{k: f(v) for k, v in d.items()}`, or a loop that changes each value in place.
  unfoldable pub map_values : (V → W) → Dict K V → Dict K W
  map_values f [] = []
  map_values f ((k, v) ∷ d) = (k, f v) ∷ map_values f d

  pub get-map_values :
      (f : V → W) (k : K) (d : Dict K V) → get k (map_values f d) ≡ map_found f (get k d)
  unfolding get map_values
  get-map_values f k [] = refl
  get-map_values f k ((j, v) ∷ d) = ground (arith, get-map_values f k d)

module _ {ℓ} {K : Type ℓ} ⦃e : Eq K⦄ where
  -- `k in s`, for a set or a list.
  unfoldable pub contains : K → List K → Bool
  contains k [] = false
  contains k (j ∷ s) = e.beq j k || contains k s

  -- `s.add(k)`
  unfoldable pub add : K → List K → List K
  add k s = if contains k s then s else k ∷ s

  pub contains-add : (k j : K) (s : List K) → contains j (add k s) ≡ (e.beq k j || contains j s)
  unfolding add contains
  contains-add k j s = elim (Bool-cases (contains k s)) [
    | inl old ↦ elim (Bool-cases (e.beq k j)) [
      | inl same ↦ rw (old, same) (rw (← (e.beq_iff k j).0 same) old)
      | inr other ↦ rw (old, other) refl
    ]
    | inr new ↦ rw new
  ]

-- Each value of a dictionary.
abbrev pub EachValue {ℓ κ ι} : {K : Type ℓ} {V : Type κ} → (V → Type ι) → Dict K V → Type ι
EachValue P = All (λ entry. P entry.1)

module _ {ℓ κ ι} {K : Type ℓ} {V : Type κ} ⦃e : Eq K⦄ (P : V → Type ι) where
  pub EachValue-put : (k : K) (v : V) (d : Dict K V) → P v → EachValue P d → EachValue P (put k v d)
  unfolding put
  EachValue-put k v [] pv h = (pv, tt)
  EachValue-put k v ((j, w) ∷ d) pv (pw, h) = elim (Bool-cases (e.beq j k)) [
    | inl same ↦ rw same (pv, h)
    | inr other ↦ rw other (pw, EachValue-put k v d pv h)
  ]

  pub EachValue-remove : (k : K) (d : Dict K V) → EachValue P d → EachValue P (remove k d)
  unfolding remove
  EachValue-remove k [] h = tt
  EachValue-remove k ((j, w) ∷ d) (pw, h) = elim (Bool-cases (e.beq j k)) [
    | inl same ↦ rw same (EachValue-remove k d h)
    | inr other ↦ rw other (pw, EachValue-remove k d h)
  ]

  pub EachValue-get : (k : K) (d : Dict K V) {v : V} → EachValue P d → get k d ≡ some v → P v
  unfolding get
  EachValue-get k [] h found = absurd (ground arith)
  EachValue-get k ((j, w) ∷ d) {v} (pw, h) found = elim (Bool-cases (e.beq j k)) [
    | inl same ↦ let found_here : w ≡ v = ground arith in subst P found_here pw
    | inr other ↦ EachValue-get k d h (ground arith)
  ]
