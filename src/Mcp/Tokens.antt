-- ===== src/Mcp/Tokens.antt =====
-- A token that was written to the tokens file authenticates with its role.
pub mod Lines
use mathlib.Core.List.{reverse, reverse-cons, reverse-reverse}
use mathlib.Core.Option.{none-ne-some, some_inj}
use any2helios_db.Prelude.{
  ℕ, ◌≡◌, refl, sym, ap, ◌∙◌, true, false, Option, none, some, List, [], ◌∷◌, ◌++◌, append-nil,
  append_assoc, ◌==◌, arith, inl, inr, ◌⊎◌, Bool-cases, Option-cases,
}
use any2helios_db.Record.Codec.{Text}
use any2helios_db.Trail.{is_space, strip_left, strip, is_empty}
use any2helios_db.CopyCodec.{text_eq}
use any2helios_db.Ledger.Chunks.Rows.{All, All-snoc, All-mono}
use any2helios_db.Mcp.Auth.{
  Role, and_then, viewer, operator, admin, role_value, role_of, lower_text, is_line_break, cut_at,
  chunks_of, partition, split_pair, Tokens, add_pair, starts_with, parse_line, parse_loop,
  parse_pairs, load_tokens, and_file, role_for, extract_bearer, authenticate, authenticate_header,
  write_token_file,
}
use any2helios_db.Mcp.Tokens.Lines.{
  IsTokenChar, IsToken, NoSpace, strip-NoSpace, cut_at-line, cut_at-before, parse_loop-append,
  parse_line-blank, blank_line, partition-token, role_of-role_value, colon,
}

-- The file is empty or ends in a newline.
abbrev pub EndsLine : Text → Type 0
EndsLine contents = (contents ≡ []) ⊎ ((c : Text) × (contents ≡ c ++ 10 ∷ []))

blank_file : parse_loop (cut_at is_line_break [] []) [] ≡ some []
unfolding parse_loop cut_at
blank_file = rw (parse_line-blank []) refl

-- The blank line at the end of a file adds nothing.
settled :
    (ps : List Text) (out : Tokens)
    → parse_loop (ps ++ cut_at is_line_break [] []) [] ≡ some out
    → parse_loop ps [] ≡ some out
unfolding cut_at
settled ps out h = go (parse_loop ps []) refl
  where
    go : (o : Option Tokens) → parse_loop ps [] ≡ o → parse_loop ps [] ≡ some out
    go none e = absurd (none-ne-some out (sym (parse_loop-append ps ([] ∷ []) [] ∙ rw e refl) ∙ h))
    go (some d) e =
        let same : some d ≡ some out =
          sym (parse_loop-append ps ([] ∷ []) [] ∙ rw e (blank_line d)) ∙ h in
        e ∙ same

module _ (token : Text) (role : Role) (ok : IsToken token) where
  abbrev entry : Text
  entry = token ++ 58 ∷ role_value role

  NoSpace-token : NoSpace token
  NoSpace-token = All-mono (λ c h. h.0) token ok.0

  NoSpace-entry : NoSpace entry
  NoSpace-entry = go token NoSpace-token
    where
      go : (s : Text) → NoSpace s → NoSpace (s ++ 58 ∷ role_value role)
      go [] h = (colon, (role_of-role_value role).0)
      go (c ∷ s) h = (h.0, go s h.1)

  plain_entry : (is_empty entry ≡ false) × (starts_with 35 entry ≡ false)
  plain_entry = go token ok.1 ok.2
    where
      go :
          (s : Text)
          → is_empty s ≡ false
          → starts_with 35 s ≡ false
          → (is_empty (s ++ 58 ∷ role_value role) ≡ false)
            × (starts_with 35 (s ++ 58 ∷ role_value role) ≡ false)
      go [] e h = absurd (ground arith)
      go (c ∷ s) e h = (refl, h)

  add_pair-token :
      (out : Tokens) → add_pair (token, role_value role) out ≡ some ((token, role) ∷ out)
  unfolding add_pair
  add_pair-token out =
      let (spaceless, read, filled) = role_of-role_value role in
      let kept = strip-NoSpace token NoSpace-token in
      let kept_role = strip-NoSpace (role_value role) spaceless in
      rw (kept, kept_role, filled, read) (rw (ok.1) refl)

  parse_line-token : (out : Tokens) → parse_line entry out ≡ some ((token, role) ∷ out)
  unfolding parse_line split_pair
  parse_line-token out =
      let kept = strip-NoSpace entry NoSpace-entry in
      let cut = partition-token token (role_value role) ok.0 in
      let (filled, plain) = plain_entry in rw (kept, filled, plain, cut) (add_pair-token out)

  last_line :
      (out : Tokens)
      → parse_loop (cut_at is_line_break [] (entry ++ 10 ∷ [])) out ≡ some ((token, role) ∷ out)
  unfolding parse_loop cut_at
  last_line out =
      rw (cut_at-line [] entry [] NoSpace-entry, parse_line-token out)
        (rw (parse_line-blank ((token, role) ∷ out)) refl)

  -- A file that is empty or ends in a newline, with the entry behind it.
  parse_pairs-token :
      (contents : Text) (out : Tokens)
      → EndsLine contents
      → parse_pairs true contents ≡ some out
      → parse_pairs true (contents ++ (entry ++ 10 ∷ [])) ≡ some ((token, role) ∷ out)
  unfolding parse_pairs chunks_of
  parse_pairs-token contents out (inl e) h =
      let none_yet : [] ≡ out = some_inj.0 (sym blank_file ∙ rw e at h) in
      rw (e, sym none_yet) (last_line [])
  parse_pairs-token contents out (inr (c, e)) h =
      let (ps, cuts) = cut_at-before [] c in
      let before : parse_loop ps [] ≡ some out =
        settled ps out (ap (λ (ls : List Text). parse_loop ls []) (sym (cuts [])) ∙ rw e at h) in
      let joined : (c ++ 10 ∷ []) ++ (entry ++ 10 ∷ []) ≡ c ++ 10 ∷ (entry ++ 10 ∷ []) =
        append_assoc c (10 ∷ []) (entry ++ 10 ∷ []) in
      rw (e, joined, cuts (entry ++ 10 ∷ []))
        (parse_loop-append ps (cut_at is_line_break [] (entry ++ 10 ∷ [])) []
          ∙ rw before (last_line out))

-- `Authorization: Bearer <token>`
abbrev pub bearer_header : Text → Text
bearer_header token = b'B' ∷ b'e' ∷ b'a' ∷ b'r' ∷ b'e' ∷ b'r' ∷ 32 ∷ token

strip-space : (s : Text) → strip (32 ∷ s) ≡ strip s
unfolding strip strip_left is_space
strip-space s = refl

extract_bearer-bearer_header :
    (token : Text) → IsToken token → extract_bearer (some (bearer_header token)) ≡ some token
unfolding extract_bearer strip_left is_space
extract_bearer-bearer_header token ok =
    let kept : strip (32 ∷ token) ≡ token =
      strip-space token ∙ strip-NoSpace token (All-mono (λ c h. h.0) token ok.0) in
    rw (kept, ok.1) refl

text_eq_refl : (s : Text) → text_eq s s ≡ true
text_eq_refl [] = refl
text_eq_refl (c ∷ s) = ground (arith, text_eq_refl s)

-- What loads is the tokens of the file and then those of the environment.
load_tokens-parts :
    (env contents : Text) (tokens : Tokens)
    → load_tokens env (some (some contents)) ≡ some tokens
    → (mapping : Tokens) × (from_file : Tokens) × (parse_pairs false env ≡ some mapping)
      × (parse_pairs true contents ≡ some from_file)
      × (tokens ≡ from_file ++ mapping)
unfolding load_tokens and_file
load_tokens-parts env contents tokens h = go (parse_pairs false env) refl
  where
    inner :
        (mapping : Tokens) (f : Option Tokens)
        → parse_pairs false env ≡ some mapping
        → parse_pairs true contents ≡ f
        → (mapping : Tokens) × (from_file : Tokens) × (parse_pairs false env ≡ some mapping)
          × (parse_pairs true contents ≡ some from_file)
          × (tokens ≡ from_file ++ mapping)
    inner mapping none e f = absurd (none-ne-some tokens (sym (rw (e, f) refl) ∙ h))
    inner mapping (some from_file) e f =
        (mapping, from_file, e, f, some_inj.0 (sym h ∙ rw (e, f) refl))

    go :
        (m : Option Tokens)
        → parse_pairs false env ≡ m
        → (mapping : Tokens) × (from_file : Tokens) × (parse_pairs false env ≡ some mapping)
          × (parse_pairs true contents ≡ some from_file)
          × (tokens ≡ from_file ++ mapping)
    go none e = absurd (none-ne-some tokens (sym (rw e refl) ∙ h))
    go (some mapping) e = inner mapping (parse_pairs true contents) e refl

-- A token that `write_token_file` appends is accepted. If the tokens load, and the file is empty or
-- ends in a newline, then with the new line they load as before with the token and its role added:
-- a request that bears the token is authenticated with that role, and no other token changes its
-- role. The token is one word without ":" that does not begin with "#".
pub load_tokens-write_token_file :
    (env contents token other : Text) (role : Role) (tokens : Tokens)
    → IsToken token
    → EndsLine contents
    → load_tokens env (some (some contents)) ≡ some tokens
    → text_eq token other ≡ false
    → (after : Tokens) × (load_tokens env (some (some (write_token_file token role true contents)))
        ≡ some after)
      × (authenticate_header after (some (bearer_header token)) ≡ some role)
      × (authenticate after other ≡ authenticate tokens other)
unfolding load_tokens and_file write_token_file authenticate_header authenticate role_for
load_tokens-write_token_file env contents token other role tokens ok ends loads differs =
    let (mapping, from_file, e, f, at) = load_tokens-parts env contents tokens loads in
    let written : contents ++ (token ++ 58 ∷ (role_value role ++ 10 ∷ []))
        ≡ contents ++ ((token ++ 58 ∷ role_value role) ++ 10 ∷ []) =
      ap (λ (t : Text). contents ++ t)
        (sym (append_assoc token (58 ∷ role_value role) (10 ∷ []))) in
    (
      (token, role) ∷ (from_file ++ mapping),
      rw (written, e, parse_pairs-token token role ok contents from_file ends f) refl,
      rw (extract_bearer-bearer_header token ok, text_eq_refl token) refl,
      rw (at, differs) refl,
    )
