-- ===== src/Runtime/Snapshot/Index.antt =====
-- The dispatch index of snapshot.py: a name resolves to the tool of the snapshot that has it.
use toollayer_ai.Base.{
  ◌≡◌, refl, sym, ◌∙◌, inl, inr, ◌⊎◌, Elem, String, false, Bool-cases, Option, none, some, List, [],
  ◌∷◌, ◌++◌, arith, ◌==◌, eq_iff,
}
use toollayer_ai.Contracts.Errors.{ok, >>=-eq-ok}
use toollayer_ai.Contracts.Models.{ToolDefinition, ConnectorDefinition, DeploymentSnapshot}
use toollayer_ai.Runtime.Snapshot.{
  BoundTool, Index, lookup, is_some, bind_tool, index_tools, index_connectors, index_snapshot,
}

lookup-append_some :
    (name : String) (a c : Index) (b : BoundTool)
    → lookup name a ≡ some b
    → lookup name (a ++ c) ≡ some b
unfolding lookup
lookup-append_some name [] c b h = cc
lookup-append_some name ((key, x) ∷ a) c b h = elim (Bool-cases (key == name)) [
  | inl here ↦ rw here (rw here at h)
  | inr there ↦ rw there (lookup-append_some name a c b (rw there at h))
]

lookup-append_none :
    (name : String) (a c : Index) → lookup name a ≡ none → lookup name (a ++ c) ≡ lookup name c
unfolding lookup
lookup-append_none name [] c h = refl
lookup-append_none name ((key, x) ∷ a) c h = ground (arith, lookup-append_none name a c)

lookup_single : (name : String) (b : BoundTool) → lookup name ((name, b) ∷ []) ≡ some b
unfolding lookup
lookup_single name b = ground (arith, eq_iff name name)

not-is_some : (o : Option BoundTool) → is_some o ≡ false → o ≡ none
not-is_some none h = refl
not-is_some (some b) h = cc

-- Every entry of the first index stands, with its value, in the second.
abbrev Extends : Index → Index → Type 0
Extends a b = (name : String) (t : BoundTool) → lookup name a ≡ some t → lookup name b ≡ some t

index_tools-Extends :
    (c : ConnectorDefinition) (tools : List ToolDefinition) (a b : Index)
    → index_tools c tools a ≡ ok b
    → Extends a b
unfolding index_tools
index_tools-Extends c [] a b h name t found = let e : a ≡ b = ground arith in rw (← e) found
index_tools-Extends c (tool ∷ tools) a b h name t found =
    elim (Bool-cases (is_some (lookup tool.tool_name a))) [
      | inl taken ↦ absurd (ground arith)
      | inr fresh ↦
          index_tools-Extends c tools (a ++ (tool.tool_name, bind_tool c tool) ∷ []) b
            (rw fresh at h) name t (lookup-append_some name a _ t found)
    ]

index_tools-lookup :
    (c : ConnectorDefinition) (tools : List ToolDefinition) (a b : Index)
    → index_tools c tools a ≡ ok b
    → (t : ToolDefinition) → Elem t tools
    → lookup t.tool_name b ≡ some (bind_tool c t)
unfolding index_tools
index_tools-lookup c [] a b h t m = elim m [ ]
index_tools-lookup c (tool ∷ tools) a b h t (inl e) =
    elim (Bool-cases (is_some (lookup tool.tool_name a))) [
      | inl taken ↦ absurd (ground arith)
      | inr fresh ↦
          let entry : String × BoundTool = (tool.tool_name, bind_tool c tool) in
          let here : lookup tool.tool_name (a ++ entry ∷ []) ≡ some (bind_tool c tool) =
            lookup-append_none tool.tool_name a (entry ∷ []) (not-is_some _ fresh)
            ∙ lookup_single tool.tool_name (bind_tool c tool) in
          rw (← e) (
            index_tools-Extends c tools (a ++ entry ∷ []) b (rw fresh at h) tool.tool_name
              (bind_tool c tool) here)
    ]
index_tools-lookup c (tool ∷ tools) a b h t (inr later) =
    elim (Bool-cases (is_some (lookup tool.tool_name a))) [
      | inl taken ↦ absurd (ground arith)
      | inr fresh ↦
          index_tools-lookup c tools (a ++ (tool.tool_name, bind_tool c tool) ∷ []) b
            (rw fresh at h) t later
    ]

index_connectors-Extends :
    (cs : List ConnectorDefinition) (a b : Index) → index_connectors cs a ≡ ok b → Extends a b
unfolding index_connectors
index_connectors-Extends [] a b h name t found = let e : a ≡ b = ground arith in rw (← e) found
index_connectors-Extends (c ∷ cs) a b h name t found =
    let (mid, tools, rest) = >>=-eq-ok (index_tools c c.tools a) _ h in
    index_connectors-Extends cs mid b rest name t
      (index_tools-Extends c c.tools a mid tools name t found)

index_connectors-lookup :
    (cs : List ConnectorDefinition) (a b : Index)
    → index_connectors cs a ≡ ok b
    → (c : ConnectorDefinition) (t : ToolDefinition) → Elem c cs
    → Elem t c.tools
    → lookup t.tool_name b ≡ some (bind_tool c t)
unfolding index_connectors
index_connectors-lookup [] a b h c t m n = elim m [ ]
index_connectors-lookup (d ∷ cs) a b h c t (inl e) n =
    let (mid, tools, rest) = >>=-eq-ok (index_tools d d.tools a) _ h in
    let n' : Elem t d.tools = rw e n in
    let here : lookup t.tool_name mid ≡ some (bind_tool d t) =
      index_tools-lookup d d.tools a mid tools t n' in
    rw (← e) (index_connectors-Extends cs mid b rest t.tool_name (bind_tool d t) here)
index_connectors-lookup (d ∷ cs) a b h c t (inr m) n =
    let (mid, tools, rest) = >>=-eq-ok (index_tools d d.tools a) _ h in
    index_connectors-lookup cs mid b rest c t m n

-- Where a bound tool comes from: a tool of that name in a connector of the list.
pub record ComesFrom (cs : List ConnectorDefinition) (name : String) (b : BoundTool) : Type 0 where
  pub connector : ConnectorDefinition
  pub tool : ToolDefinition
  pub listed : Elem connector cs
  pub offered : Elem tool connector.tools
  pub called : tool.tool_name ≡ name
  pub bound : b ≡ bind_tool connector tool

lookup-snoc :
    (name : String) (a : Index) (key : String) (x b : BoundTool)
    → lookup name (a ++ (key, x) ∷ []) ≡ some b
    → (lookup name a ≡ some b) ⊎ ((key ≡ name) × (x ≡ b))
unfolding lookup
lookup-snoc name [] key x b h = ground (arith, eq_iff key name)
lookup-snoc name ((k, y) ∷ a) key x b h = elim (Bool-cases (k == name)) [
  | inl here ↦ inl (rw here (rw here at h))
  | inr there ↦ rw there (lookup-snoc name a key x b (rw there at h))
]

index_tools-from :
    (c : ConnectorDefinition) (tools : List ToolDefinition) (a b : Index)
    → index_tools c tools a ≡ ok b
    → (name : String) (x : BoundTool) → lookup name b ≡ some x
    → (lookup name a ≡ some x)
      ⊎ ((t : ToolDefinition) × Elem t tools × (t.tool_name ≡ name) × (x ≡ bind_tool c t))
unfolding index_tools
index_tools-from c [] a b h name x found = let e : a ≡ b = ground arith in inl (rw e found)
index_tools-from c (tool ∷ tools) a b h name x found =
    elim (Bool-cases (is_some (lookup tool.tool_name a))) [
      | inl taken ↦ absurd (ground arith)
      | inr fresh ↦
          let a' = a ++ (tool.tool_name, bind_tool c tool) ∷ [] in
          elim (index_tools-from c tools a' b (rw fresh at h) name x found) [
            | inl early ↦ elim (lookup-snoc name a tool.tool_name (bind_tool c tool) x early) [
              | inl old ↦ inl old
              | inr (called, bound) ↦ inr (tool, inl refl, called, sym bound)
            ]
            | inr (t, m, called, bound) ↦ inr (t, inr m, called, bound)
          ]
    ]

index_connectors-from :
    (cs : List ConnectorDefinition) (a b : Index)
    → index_connectors cs a ≡ ok b
    → (name : String) (x : BoundTool) → lookup name b ≡ some x
    → (lookup name a ≡ some x) ⊎ ComesFrom cs name x
unfolding index_connectors
index_connectors-from [] a b h name x found = let e : a ≡ b = ground arith in inl (rw e found)
index_connectors-from (c ∷ cs) a b h name x found =
    let (mid, tools, rest) = >>=-eq-ok (index_tools c c.tools a) _ h in
    elim (index_connectors-from cs mid b rest name x found) [
      | inl early ↦ elim (index_tools-from c c.tools a mid tools name x early) [
        | inl old ↦ inl old
        | inr (t, m, called, bound) ↦ inr (record {
          connector = c;
          tool = t;
          listed = inl refl;
          offered = m;
          called = called;
          bound = bound;
        })
      ]
      | inr f ↦ inr (record {
        connector = f.connector;
        tool = f.tool;
        listed = inr f.listed;
        offered = f.offered;
        called = f.called;
        bound = f.bound;
      })
    ]

lookup_nothing : (name : String) (x : BoundTool) → ¬ (lookup name [] ≡ some x)
unfolding lookup
lookup_nothing name x h = cc h

-- In an index that was built, every tool of every connector is found under its own name, bound to
-- that connector and no other, and whatever a name finds is such a tool.
pub index_snapshot-lookup :
    (s : DeploymentSnapshot) (index : Index)
    → index_snapshot s ≡ ok index
    → ((c : ConnectorDefinition) (t : ToolDefinition)
        → Elem c s.connectors
        → Elem t c.tools
        → lookup t.tool_name index ≡ some (bind_tool c t))
      × ((name : String) (b : BoundTool)
          → lookup name index ≡ some b
          → ComesFrom s.connectors name b)
unfolding index_snapshot
index_snapshot-lookup s index h = (index_connectors-lookup s.connectors [] index h, from)
  where
    from :
        (name : String) (b : BoundTool) → lookup name index ≡ some b → ComesFrom s.connectors name b
    from name b found = elim (index_connectors-from s.connectors [] index h name b found) [
      | inl old ↦ absurd (lookup_nothing name b old)
      | inr f ↦ f
    ]
