-- ===== src/Mcp/Listing.antt =====
-- The tools that `tools/list` names are those that `tools/call` runs.
use Prim.Native.String.{compare}
use any2helios_db.Prelude.{
  String, ◌≡◌, refl, ap, ◌∙◌, Bool, true, false, ◌||◌, ◌&&◌, Option, none, some, List, [], ◌∷◌,
  str_eq, eq_iff, Bool-cases, inl, inr, ◌⊎◌,
}
use any2helios_db.Mcp.Auth.{Role, can}
use any2helios_db.Json.{Json}
use any2helios_db.Mcp.Tools.{
  Tool, ToolRegistry, forbidden, key_error, find_tool, call, insert_name, sort_names, tool_names,
  names, permits, keep_permitted, visible_to, is_lt,
}

abbrev pub is_listed : String → List String → Bool
is_listed name [] = false
is_listed name (n ∷ ns) = str_eq n name || is_listed name ns

is_listed-insert_name :
    (name n : String) (ns : List String)
    → is_listed name (insert_name n ns) ≡ (str_eq n name || is_listed name ns)
is_listed-insert_name name n [] = refl
is_listed-insert_name name n (m ∷ ms) = elim (Bool-cases (is_lt (compare m n))) [
  | inl before ↦
      rw (before, is_listed-insert_name name n ms)
        (swap (str_eq m name) (str_eq n name) (is_listed name ms))
  | inr behind ↦ rw behind refl
]
  where
    swap : (a b c : Bool) → (a || (b || c)) ≡ (b || (a || c))
    swap true true c = refl
    swap true false c = refl
    swap false true c = refl
    swap false false c = refl

is_listed-sort_names :
    (name : String) (ns : List String) → is_listed name (sort_names ns) ≡ is_listed name ns
is_listed-sort_names name [] = refl
is_listed-sort_names name (n ∷ ns) =
    is_listed-insert_name name n (sort_names ns)
    ∙ ap (λ (b : Bool). str_eq n name || b) (is_listed-sort_names name ns)

module _ {S : Type 0} (tools : ToolRegistry S) (role : Role) where
  is_listed-keep_permitted :
      (name : String) (ns : List String)
      → is_listed name (keep_permitted tools role ns)
        ≡ (permits (find_tool tools name) role && is_listed name ns)
  is_listed-keep_permitted name [] = none_left (permits (find_tool tools name) role)
    where
      none_left : (b : Bool) → false ≡ (b && false)
      none_left true = refl
      none_left false = refl
  is_listed-keep_permitted name (n ∷ ns) = elim (Bool-cases (str_eq n name)) [
    | inl is ↦
        let same : permits (find_tool tools n) role ≡ permits (find_tool tools name) role =
          ap (λ (m : String). permits (find_tool tools m) role) ((eq_iff n name).0 is) in
        elim (Bool-cases (permits (find_tool tools name) role)) [
          | inl permitted ↦ rw (same, permitted) (rw is refl)
          | inr barred ↦
              rw (same, barred)
                (is_listed-keep_permitted name ns
                  ∙ ap (λ (b : Bool). b && is_listed name ns) barred)
        ]
    | inr isnt ↦ elim (Bool-cases (permits (find_tool tools n) role)) [
      | inl permitted ↦ rw (permitted, isnt) (is_listed-keep_permitted name ns)
      | inr barred ↦ rw (barred, isnt) (is_listed-keep_permitted name ns)
    ]
  ]

abbrev is_there : {S : Type 0} → Option (Tool S) → Bool
is_there none = false
is_there (some t) = true

is_listed-tool_names :
    {S : Type 0} (tools : ToolRegistry S) (name : String)
    → is_listed name (tool_names tools) ≡ is_there (find_tool tools name)
unfolding find_tool
is_listed-tool_names [] name = refl
is_listed-tool_names (t ∷ tools) name = elim (Bool-cases (str_eq t.name name)) [
  | inl is ↦ rw is refl
  | inr isnt ↦ rw isnt (is_listed-tool_names tools name)
]

-- A tool that is there is listed where the role clears it.
is_listed-visible_to :
    {S : Type 0} (tools : ToolRegistry S) (role : Role) (name : String)
    → is_listed name (visible_to tools role) ≡ permits (find_tool tools name) role
unfolding visible_to names
is_listed-visible_to {S} tools role name =
    is_listed-keep_permitted tools role name (sort_names (tool_names tools))
    ∙ ap (λ (b : Bool). permits (find_tool tools name) role && b)
        (is_listed-sort_names name (tool_names tools) ∙ is_listed-tool_names tools name)
    ∙ there (find_tool tools name)
  where
    both : (b : Bool) → (b && true) ≡ b
    both true = refl
    both false = refl

    there : (o : Option (Tool S)) → (permits o role && is_there o) ≡ permits o role
    there none = refl
    there (some t) = both (can role t.role)

-- The list of tools that a caller gets agrees with what it may call. A name that is in the list
-- names a tool, and a call of it is a run of its handler; a call of any other name changes nothing
-- and is an unknown tool or forbidden.
pub call-visible_to :
    {S : Type 0} (tools : ToolRegistry S) (role : Role) (name : String) (args : Json) (s : S)
    → ((is_listed name (visible_to tools role) ≡ true)
        × ((t : Tool S) × (find_tool tools name ≡ some t)
            × (call tools role name args s ≡ t.handler args s)))
      ⊎ ((is_listed name (visible_to tools role) ≡ false)
          × ((call tools role name args s ≡ (s, key_error))
              ⊎ (call tools role name args s ≡ (s, forbidden))))
unfolding call
call-visible_to {S} tools role name args s = go (find_tool tools name) refl
  where
    go :
        (o : Option (Tool S))
        → find_tool tools name ≡ o
        → ((is_listed name (visible_to tools role) ≡ true)
            × ((t : Tool S) × (find_tool tools name ≡ some t)
                × (call tools role name args s ≡ t.handler args s)))
          ⊎ ((is_listed name (visible_to tools role) ≡ false)
              × ((call tools role name args s ≡ (s, key_error))
                  ⊎ (call tools role name args s ≡ (s, forbidden))))
    go none e =
        let listed = is_listed-visible_to tools role name in
        inr (listed ∙ rw e refl, inl (rw e refl))
    go (some t) e =
        let listed = is_listed-visible_to tools role name in
        elim (Bool-cases (can role t.role)) [
          | inl cleared ↦ inl (listed ∙ rw e cleared, (t, e, rw (e, cleared) refl))
          | inr barred ↦ inr (listed ∙ rw e barred, inr (rw (e, barred) refl))
        ]
