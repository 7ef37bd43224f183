-- ===== src/Http/Lines.antt =====
-- Splitting the head of a request into its lines.
use kemtls.Common.{
  ℕ, ◌≡◌, ◌≢◌, refl, ap, ◌∙◌, arith, false, List, [], ◌∷◌, ◌++◌, append_assoc, All, All-append,
  Bytes,
}
use kemtls.Http.{crlf, starts_crlf, split_lines, body_of, join_lines}

-- A line: no carriage return is in it.
abbrev pub IsLine : Bytes → Type 0
IsLine = All (λ c. c ≢ 13)

-- A line that is not the empty one, which ends the head.
abbrev pub IsHeadLine : Bytes → Type 0
IsHeadLine [] = ⊥
IsHeadLine (c ∷ line) = IsLine (c ∷ line)

-- Lines, each with its end, and what follows them.
abbrev pub terminated : List Bytes → Bytes → Bytes
terminated [] rest = rest
terminated (line ∷ lines) rest = line ++ (crlf ++ terminated lines rest)

IsHeadLine-IsLine : (line : Bytes) → IsHeadLine line → IsLine line
IsHeadLine-IsLine [] h = absurd h
IsHeadLine-IsLine (c ∷ line) h = h

not_crlf : (c : ℕ) (s : Bytes) → c ≢ 13 → starts_crlf (c ∷ s) ≡ false
unfolding starts_crlf
not_crlf c [] h = refl
not_crlf c (d ∷ s) h = ground arith

split_lines-line :
    (line rest : Bytes)
    → IsLine line
    → split_lines false (line ++ (crlf ++ rest)) ≡ line ∷ split_lines false rest
unfolding split_lines starts_crlf
split_lines-line [] rest h = refl
split_lines-line (c ∷ line) rest (no_return, h) =
    rw (not_crlf c (line ++ (crlf ++ rest)) no_return, split_lines-line line rest h) refl

body_of-line : (line rest : Bytes) → IsLine line → body_of (line ++ rest) ≡ body_of rest
unfolding body_of
body_of-line [] rest h = refl
body_of-line (c ∷ line) rest (no_return, h) =
    rw (not_crlf c (line ++ rest) no_return, body_of-line line rest h) refl

-- After the end of a line, another line follows.
body_of-crlf : (c : ℕ) (rest : Bytes) → c ≢ 13 → body_of (crlf ++ c ∷ rest) ≡ body_of (c ∷ rest)
unfolding body_of starts_crlf
body_of-crlf c rest h = rw (not_crlf c rest h) refl

-- The lines of a head, with the empty line that ends it, are split off the request.
pub split_lines-terminated :
    (lines : List Bytes) (body : Bytes)
    → All IsHeadLine lines
    → split_lines false (terminated lines (crlf ++ body)) ≡ lines ++ [] ∷ split_lines false body
split_lines-terminated [] body h = split_lines-line [] body tt
split_lines-terminated (line ∷ lines) body (is_line, h) =
    split_lines-line line (terminated lines (crlf ++ body)) (IsHeadLine-IsLine line is_line)
    ∙ ap (λ (l : List Bytes). line ∷ l) (split_lines-terminated lines body h)

-- What follows the empty line is the body.
pub body_of-terminated :
    (line : Bytes) (lines : List Bytes) (body : Bytes)
    → IsHeadLine line
    → All IsHeadLine lines
    → body_of (terminated (line ∷ lines) (crlf ++ body)) ≡ body
unfolding body_of starts_crlf
body_of-terminated line [] body is_line h =
    body_of-line line (crlf ++ (crlf ++ body)) (IsHeadLine-IsLine line is_line)
body_of-terminated line ([] ∷ lines) body is_line (is_next, h) = absurd is_next
body_of-terminated line ((c ∷ l) ∷ lines) body is_line (is_next, h) =
    body_of-line line (terminated ([] ∷ (c ∷ l) ∷ lines) (crlf ++ body))
      (IsHeadLine-IsLine line is_line)
    ∙ body_of-crlf c (l ++ (crlf ++ terminated lines (crlf ++ body))) is_next.0
    ∙ body_of-terminated (c ∷ l) lines body is_next h

-- The lines that `join_lines` puts together, with their ends.
pub join_lines-terminated :
    (line : Bytes) (lines : List Bytes) (rest : Bytes)
    → join_lines (line ∷ lines) ++ (crlf ++ rest) ≡ terminated (line ∷ lines) rest
unfolding join_lines
join_lines-terminated line [] rest = refl
join_lines-terminated line (l ∷ lines) rest =
    append_assoc line (crlf ++ join_lines (l ∷ lines)) (crlf ++ rest)
    ∙ ap (λ (t : Bytes). line ++ (crlf ++ t)) (join_lines-terminated l lines rest)

-- Text before and after a character that ends no line.
pub IsHeadLine-append :
    (a : Bytes) (c : ℕ) (b : Bytes) → IsLine a → c ≢ 13 → IsLine b → IsHeadLine (a ++ c ∷ b)
IsHeadLine-append [] c b ha hc hb = (hc, hb)
IsHeadLine-append (d ∷ a) c b (hd, ha) hc hb = (hd, All-append (λ c. c ≢ 13) a (c ∷ b) ha (hc, hb))
