-- ===== src/Examples/Mcp.antt =====
-- The theorems on the tool server at a token file and at handlers that count writes.
use mathlib.Core.Option.{some_inj}
use mathlib.Core.Bool.{true≢false}
use any2helios_db.Prelude.{
  ℕ, suc, String, ◌≡◌, refl, sym, subst, ◌∙◌, Bool, true, false, Option, none, some, [], ◌∷◌, ◌⊎◌,
  inr, ◌||◌, if◌then◌else◌, str_eq,
}
use any2helios_db.Record.Codec.{Text}
use any2helios_db.Trail.{strip, strip_left, is_space}
use any2helios_db.Ledger.Chunks.Rows.{All}
use any2helios_db.Mcp.Auth.{
  Role, viewer, admin, can, Tokens, load_tokens, write_token_file, authenticate,
  authenticate_header,
}
use any2helios_db.Prelude.Int.{pos}
use any2helios_db.Json.{Json, null, int, text, array, object, no_item, item, no_member, member}
use any2helios_db.Mcp.Tools.{
  Tool, Handler, returned, forbidden, key_error, find_tool, call, catalog, build_catalog,
  visible_to,
}
use any2helios_db.Mcp.Server.{do_post, serve_stdio}
use any2helios_db.Mcp.Tokens.{bearer_header, load_tokens-write_token_file}
use any2helios_db.Mcp.Tokens.Lines.{IsToken}
use any2helios_db.Mcp.Access.{EntryRespects, do_post-Respects}
use any2helios_db.Mcp.Listing.{is_listed, call-visible_to}

abbrev old_file : Text
old_file = b'a' ∷ b':' ∷ b'a' ∷ b'd' ∷ b'm' ∷ b'i' ∷ b'n' ∷ 10 ∷ []

abbrev old_tokens : Tokens
old_tokens = (b'a' ∷ [], admin) ∷ []

abbrev new_token : Text
new_token = b't' ∷ b'1' ∷ []

old_tokens_load : load_tokens [] (some (some old_file)) ≡ some old_tokens
unfolding load_tokens
old_tokens_load = refl

new_token-IsToken : IsToken new_token
unfolding is_space
new_token-IsToken = (((refl, refl), ((refl, refl), tt)), refl, refl)

load_tokens-write_token_file_example :
    (after : Tokens) × (load_tokens []
        (some (some (write_token_file new_token viewer true old_file)))
      ≡ some after)
    × (authenticate_header after (some (bearer_header new_token)) ≡ some viewer)
    × (authenticate after (b'a' ∷ []) ≡ authenticate old_tokens (b'a' ∷ []))
load_tokens-write_token_file_example =
    load_tokens-write_token_file [] old_file new_token (b'a' ∷ []) viewer old_tokens
      new_token-IsToken (inr (b'a' ∷ b':' ∷ b'a' ∷ b'd' ∷ b'm' ∷ b'i' ∷ b'n' ∷ [], refl))
      old_tokens_load refl

-- A line without a newline at the end of the file swallows the token that is appended.
token_after_torn :
    load_tokens [] (
      some (
        some (
          write_token_file new_token viewer true
            (b'a' ∷ b':' ∷ b'a' ∷ b'd' ∷ b'm' ∷ b'i' ∷ b'n' ∷ []))))
    ≡ none
unfolding load_tokens write_token_file
token_after_torn = refl

abbrev writes : String → Bool
writes name =
    str_eq name "migrate"
    || str_eq name "load"
    || str_eq name "resume"
    || str_eq name "extract"
    || str_eq name "replicat"
    || str_eq name "wizard"

-- The handlers of the tools that write count their calls.
abbrev counting : String → Handler ℕ
counting name args n = (if writes name then suc n else n, returned null)

abbrev Unchanged : ℕ → ℕ → Type 0
Unchanged n m = n ≡ m

-- The handlers that a viewer clears change nothing.
viewer_only : All (EntryRespects Unchanged counting viewer) catalog
unfolding can
viewer_only = (
  quiet,
  (
    quiet,
    (
      quiet,
      (
        quiet,
        (
          quiet,
          (
            quiet,
            (
              quiet,
              (
                quiet,
                (
                  quiet,
                  (
                    quiet,
                    (
                      quiet,
                      (
                        quiet,
                        (
                          λ c. absurd (true≢false (sym c)),
                          (
                            λ c. absurd (true≢false (sym c)),
                            (
                              λ c. absurd (true≢false (sym c)),
                              (
                                λ c. absurd (true≢false (sym c)),
                                (
                                  λ c. absurd (true≢false (sym c)),
                                  (λ c. absurd (true≢false (sym c)), tt),
                                ),
                              ),
                            ),
                          ),
                        ),
                      ),
                    ),
                  ),
                ),
              ),
            ),
          ),
        ),
      ),
    ),
  ),
)
  where
    quiet : true ≡ true → Json → (n : ℕ) → Unchanged n n
    quiet c args n = refl

viewer_tokens :
    (role : Role)
    → authenticate_header ((new_token, viewer) ∷ []) (some (bearer_header new_token)) ≡ some role
    → viewer ≡ role
unfolding authenticate_header strip strip_left is_space
viewer_tokens role e = some_inj.0 e

abbrev loads_call : Text → Option Json
loads_call raw = some (
    object (
      member "jsonrpc" (text "2.0") (
        member "id" (int (pos 1)) (
          member "method" (text "tools/call")
            (member "params" (object (member "name" (text "migrate") no_member)) no_member)))))

do_post-Respects_example :
    Unchanged 0
      (do_post loads_call
        (build_catalog counting)
        ((new_token, viewer) ∷ [])
        "/mcp"
        (some (bearer_header new_token))
        (b'x' ∷ [])
        0).0
do_post-Respects_example =
    do_post-Respects Unchanged loads_call counting ((new_token, viewer) ∷ []) "/mcp"
      (some (bearer_header new_token)) (b'x' ∷ []) 0
      (record { stay = λ n. refl; chain = λ a b c p q. p ∙ q })
      (λ role e.
        subst (λ (r : Role). All (EntryRespects Unchanged counting r) catalog)
          (viewer_tokens role e) viewer_only)

call-visible_to_example :
    let tools = build_catalog counting in
    ((is_listed "migrate" (visible_to tools viewer) ≡ true)
      × ((t : Tool ℕ) × (find_tool tools "migrate" ≡ some t)
          × (call tools viewer "migrate" null 0 ≡ t.handler null 0)))
    ⊎ ((is_listed "migrate" (visible_to tools viewer) ≡ false)
        × ((call tools viewer "migrate" null 0 ≡ (0, key_error))
            ⊎ (call tools viewer "migrate" null 0 ≡ (0, forbidden))))
call-visible_to_example = call-visible_to (build_catalog counting) viewer "migrate" null 0

-- Parameters that are a list end the local server.
abbrev loads_list : Text → Option Json
loads_list raw = some (
    object (
      member "jsonrpc" (text "2.0") (
        member "method" (text "tools/call")
          (member "params" (array (item null no_item)) no_member))))

stdio_dies :
    serve_stdio loads_list (build_catalog counting) admin ((b'x' ∷ []) ∷ (b'y' ∷ []) ∷ []) 0
    ≡ (0, none)
unfolding serve_stdio strip_left is_space
stdio_dies = refl
