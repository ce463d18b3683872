-- ===== src/Mcp/Tokens/Lines.antt =====
-- How the lines of a tokens file are cut and read.
use mathlib.Core.List.{reverse, reverse-cons, reverse-reverse}
use any2helios_db.Prelude.{
  ℕ, ◌≡◌, refl, sym, ap, ◌∙◌, false, some, List, [], ◌∷◌, ◌++◌, append-nil, append_assoc, ◌==◌,
  arith, inl, inr, Bool-cases, Option-cases,
}
use any2helios_db.Record.Codec.{Text}
use any2helios_db.Trail.{is_space, strip_left, strip, is_empty}
use any2helios_db.Ledger.Chunks.Rows.{All, All-snoc}
use any2helios_db.Mcp.Auth.{
  Role, and_then, viewer, operator, admin, role_value, role_of, lower_text, is_line_break, cut_at,
  partition, Tokens, starts_with, parse_line, parse_loop,
}

-- A character that neither a strip nor the search for the delimiter takes for its own.
abbrev pub IsTokenChar : ℕ → Type 0
IsTokenChar c = (is_space c ≡ false) × ((c == 58) ≡ false)

-- A token as `generate_token` makes them: one word, no ":", and no comment.
abbrev pub IsToken : Text → Type 0
IsToken token = All IsTokenChar token × (is_empty token ≡ false) × (starts_with 35 token ≡ false)

abbrev pub NoSpace : Text → Type 0
NoSpace s = All (λ (c : ℕ). is_space c ≡ false) s

NoSpace-reverse : (s : Text) → NoSpace s → NoSpace (reverse s)
NoSpace-reverse [] h = tt
NoSpace-reverse (c ∷ s) h =
    rw (reverse-cons c s)
      (All-snoc (λ (c : ℕ). is_space c ≡ false) (reverse s) c (NoSpace-reverse s h.1) h.0)

strip_left-NoSpace : (s : Text) → NoSpace s → strip_left s ≡ s
unfolding strip_left
strip_left-NoSpace [] h = refl
strip_left-NoSpace (c ∷ s) h = rw h.0 refl

pub strip-NoSpace : (s : Text) → NoSpace s → strip s ≡ s
unfolding strip
strip-NoSpace s h =
    rw (strip_left-NoSpace s h, strip_left-NoSpace (reverse s) (NoSpace-reverse s h))
      (reverse-reverse s)

-- A line break is a space.
not-line_break : (c : ℕ) → is_space c ≡ false → is_line_break c ≡ false
unfolding is_space
not-line_break c h = ground (arith, h)

pub cut_at-line :
    (piece l s : Text)
    → NoSpace l
    → cut_at is_line_break piece (l ++ 10 ∷ s) ≡ (piece ++ l) ∷ cut_at is_line_break [] s
unfolding cut_at
cut_at-line piece [] s h = ap (λ (p : Text). p ∷ cut_at is_line_break [] s) (sym (append-nil piece))
cut_at-line piece (c ∷ l) s h = rw (not-line_break c h.0) (
    cut_at-line (piece ++ c ∷ []) l s h.1
    ∙ ap (λ (p : Text). p ∷ cut_at is_line_break [] s) (append_assoc piece (c ∷ []) l))

-- What stands before a newline is cut without regard to what stands behind it.
pub cut_at-before :
    (piece c : Text)
    → (ps : List Text) × ((s : Text)
        → cut_at is_line_break piece (c ++ 10 ∷ s) ≡ ps ++ cut_at is_line_break [] s)
unfolding cut_at
cut_at-before piece [] = (piece ∷ [], λ s. refl)
cut_at-before piece (c ∷ cs) = elim (Bool-cases (is_line_break c)) [
  | inl is ↦
      let (ps, e) = cut_at-before [] cs in
      (piece ∷ ps, λ s. rw is (ap (λ (q : List Text). piece ∷ q) (e s)))
  | inr isnt ↦ let (ps, e) = cut_at-before (piece ++ c ∷ []) cs in (ps, λ s. rw isnt (e s))
]

pub parse_loop-append :
    (ps qs : List Text) (out : Tokens)
    → parse_loop (ps ++ qs) out ≡ and_then (parse_loop ps out) (parse_loop qs)
unfolding parse_loop
parse_loop-append [] qs out = refl
parse_loop-append (p ∷ ps) qs out = elim (Option-cases (parse_line p out)) [
  | inl bad ↦ rw bad refl
  | inr (out', good) ↦ rw good (parse_loop-append ps qs out')
]

pub parse_line-blank : (out : Tokens) → parse_line [] out ≡ some out
unfolding parse_line strip_left
parse_line-blank out = refl

pub blank_line : (out : Tokens) → parse_loop ([] ∷ []) out ≡ some out
unfolding parse_loop
blank_line out = rw (parse_line-blank out) refl

pub partition-token :
    (token s : Text) → All IsTokenChar token → partition 58 (token ++ 58 ∷ s) ≡ some (token, s)
unfolding partition
partition-token [] s h = refl
partition-token (c ∷ token) s h = rw (h.0.1, partition-token token s h.1) refl

-- The value of a role is read as the role.
pub role_of-role_value :
    (role : Role)
    → NoSpace (role_value role)
      × (role_of (lower_text (role_value role)) ≡ some role)
      × (is_empty (role_value role) ≡ false)
unfolding role_of is_space
role_of-role_value viewer = ((refl, (refl, (refl, (refl, (refl, (refl, tt)))))), refl, refl)
role_of-role_value operator =
    ((refl, (refl, (refl, (refl, (refl, (refl, (refl, (refl, tt)))))))), refl, refl)
role_of-role_value admin = ((refl, (refl, (refl, (refl, (refl, tt))))), refl, refl)

pub colon : is_space 58 ≡ false
unfolding is_space
colon = refl
