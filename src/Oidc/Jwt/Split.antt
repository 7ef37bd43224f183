-- ===== src/Oidc/Jwt/Split.antt =====
-- Splitting a token at its dots.
use kemtls.Common.{
  ℕ, ◌≡◌, ◌≢◌, refl, ap, ◌∙◌, sym, ==_iff, inl, inr, Bool-cases, arith, List, [], ◌∷◌, ◌++◌, ◌==◌,
  append_assoc, All, Str,
}
use kemtls.Common.Error.{ok}
use kemtls.Oidc.Jwt.{dot, cut, split, three_parts, split_jwt}

-- A text without a dot.
abbrev pub IsPart : Str → Type 0
IsPart = All (λ c. c ≢ dot)

split-append_dot : (a b : Str) → IsPart a → split (a ++ dot ∷ b) ≡ a ∷ split b
unfolding split
split-append_dot [] b h = refl
split-append_dot (c ∷ a) b (no_dot, h) = rw (split-append_dot a b h) (ground arith)

split-IsPart : (a : Str) → IsPart a → split a ≡ a ∷ []
unfolding split
split-IsPart [] h = refl
split-IsPart (c ∷ a) (no_dot, h) = rw (split-IsPart a h) (ground arith)

-- A token of three parts without dots is split into them.
pub split_jwt-eq :
    (a b c : Str)
    → IsPart a
    → IsPart b
    → IsPart c
    → split_jwt ((a ++ dot ∷ b) ++ dot ∷ c) ≡ ok (a, b, c)
unfolding split_jwt
split_jwt-eq a b c ha hb hc =
    ap (λ (s : Str). three_parts (split s)) (append_assoc a (dot ∷ b) (dot ∷ c))
    ∙ ap three_parts (split-append_dot a (b ++ dot ∷ c) ha)
    ∙ ap (λ (s : List Str). three_parts (a ∷ s)) (split-append_dot b c hb)
    ∙ ap (λ (s : List Str). three_parts (a ∷ b ∷ s)) (split-IsPart c hc)

-- `".".join(parts)`
abbrev join : List Str → Str
join [] = []
join (a ∷ []) = a
join (a ∷ b ∷ rest) = a ++ dot ∷ join (b ∷ rest)

join-cut : (c : ℕ) (parts : List Str) → parts ≢ [] → join (cut c parts) ≡ c ∷ join parts
join-cut c [] h = absurd (h refl)
join-cut c (a ∷ []) h = refl
join-cut c (a ∷ b ∷ rest) h = refl

join-dot : (parts : List Str) → parts ≢ [] → join ([] ∷ parts) ≡ dot ∷ join parts
join-dot [] h = absurd (h refl)
join-dot (a ∷ rest) h = refl

cut_ne : (c : ℕ) (parts : List Str) → cut c parts ≢ []
cut_ne c [] h = cc
cut_ne c (a ∷ rest) h = cc

split_ne : (s : Str) → split s ≢ []
unfolding split
split_ne [] h = cc
split_ne (c ∷ s) h = elim (Bool-cases (c == dot)) [
  | inl e ↦ ground arith
  | inr e ↦ cut_ne c (split s) (ground arith)
]

join-split : (s : Str) → join (split s) ≡ s
unfolding split
join-split [] = refl
join-split (c ∷ s) = elim (Bool-cases (c == dot)) [
  | inl e ↦ rw e (
      join-dot (split s) (split_ne s)
      ∙ ap (λ (t : Str). dot ∷ t) (join-split s)
      ∙ ap (λ (x : ℕ). x ∷ s) (sym ((==_iff c dot).0 e)))
  | inr e ↦ rw e (join-cut c (split s) (split_ne s) ∙ ap (λ (t : Str). c ∷ t) (join-split s))
]

three_parts_inv :
    (parts : List Str) {a b c : Str} → three_parts parts ≡ ok (a, b, c) → parts ≡ a ∷ b ∷ c ∷ []
three_parts_inv [] h = cc
three_parts_inv (a ∷ []) h = cc
three_parts_inv (a ∷ b ∷ []) h = cc
three_parts_inv (a ∷ b ∷ c ∷ []) h = ground arith
three_parts_inv (a ∷ b ∷ c ∷ d ∷ rest) h = cc

-- A token that is split is its parts with a dot between them.
pub split_jwt_inv :
    (token : Str) {a b c : Str} → split_jwt token ≡ ok (a, b, c) → token ≡ (a ++ dot ∷ b) ++ dot ∷ c
unfolding split_jwt
split_jwt_inv token {a = a} {b = b} {c = c} h =
    sym (join-split token)
    ∙ ap join (three_parts_inv (split token) h)
    ∙ sym (append_assoc a (dot ∷ b) (dot ∷ c))
