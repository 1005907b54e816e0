-- ===== src/Approval/Names.antt =====
-- Canonical names and arguments are a normal form.
use mini_dsh.Common.{
  ℕ, String, ◌≡◌, refl, false, none, some, List, [], ◌∷◌, ◌==◌, arith, eq_iff, Bool-cases,
  Option-cases, inl, inr, ap, All, ◌⊎◌, subst, sym, ◌∙◌,
}
use mini_dsh.Common.Dict
use mini_dsh.Common.Dict.{Dict, get-set}
use mini_dsh.Approval.{
  path_aliases, edit_aliases, ToolCall, lowers_to, legacy_map, legacy_name, canonical_tool_name,
  CanonicalName, named, member, prototype_members, alias_of, arg_aliases, has_alias, write_arg,
  rename_args, alias_args, canonical_args, canonical_call,
}

legacy_name_target :
    (entries : List (String × String)) (name canonical : String)
    → All (λ e. canonical_tool_name e.1 ≡ named e.1) entries
    → legacy_name entries name ≡ some canonical
    → canonical_tool_name canonical ≡ named canonical
unfolding legacy_name
legacy_name_target [] name canonical h e = ground arith
legacy_name_target ((l, c) ∷ rest) name canonical h e = elim (Bool-cases (lowers_to name l)) [
  | inl t ↦ ground (arith, t, h.0)
  | inr f ↦ legacy_name_target rest name canonical h.1 (ground (arith, f))
]

legacy_map_canonical : All (λ e. canonical_tool_name e.1 ≡ named e.1) legacy_map
unfolding canonical_tool_name
legacy_map_canonical = (refl, (refl, (refl, (refl, (refl, (refl, tt))))))

canonical_tool_name_idem :
    (name canonical : String)
    → canonical_tool_name name ≡ named canonical
    → canonical_tool_name canonical ≡ named canonical
unfolding canonical_tool_name
canonical_tool_name_idem name canonical h = elim (Option-cases (legacy_name legacy_map name)) [
  | inr (c, e) ↦
      let same : canonical_tool_name name ≡ named c = rw (e, canonical_tool_name) refl in
      let fixed = legacy_name_target legacy_map name c legacy_map_canonical e in
      let equal : c ≡ canonical = ground (arith, same, h) in
      subst (λ n. canonical_tool_name n ≡ named n) equal fixed
  | inl e ↦ elim (Option-cases (legacy_name prototype_members name)) [
    | inr (t, f) ↦
        let other : canonical_tool_name name ≡ member t =
          rw (e, canonical_tool_name) (rw (f, canonical_tool_name) refl) in
        absurd (ground (arith, other, h))
    | inl f ↦
        let same : canonical_tool_name name ≡ named name =
          rw (e, canonical_tool_name) (rw (f, canonical_tool_name) refl) in
        let equal : name ≡ canonical = ground (arith, same, h) in
        subst (λ n. canonical_tool_name n ≡ named n) equal same
  ]
]

-- A table of aliases has no alias among its targets, and finds each of its entries.
record IsTable (aliases : Dict String) : Type 0 where
  apart : All (λ e. Dict.get e.1 aliases ≡ none) aliases
  entries : All (λ e. Dict.get e.0 aliases ≡ some e.1) aliases
  members : All (λ e. Dict.get e.1 aliases ≡ none) prototype_members

target_apart :
    (aliases part : Dict String) (k t : String)
    → All (λ e. Dict.get e.1 aliases ≡ none) part
    → Dict.get k part ≡ some t
    → Dict.get t aliases ≡ none
unfolding Dict.get
target_apart aliases [] k t h e = ground arith
target_apart aliases ((a, target) ∷ part) k t h e = elim (Bool-cases (a == k)) [
  | inl f ↦ ground (arith, f, h.0)
  | inr f ↦ target_apart aliases part k t h.1 (ground (arith, f))
]

alias_of_apart :
    (aliases : Dict String) (k t : String)
    → IsTable aliases
    → alias_of k aliases ≡ some t
    → Dict.get t aliases ≡ none
unfolding alias_of
alias_of_apart aliases k t table e = elim (Option-cases (Dict.get k aliases)) [
  | inr (target, f) ↦ target_apart aliases aliases k t table.apart (ground (arith, e, f))
  | inl f ↦ target_apart aliases prototype_members k t table.members (ground (arith, e, f))
]

alias_of-get :
    (aliases : Dict String) (k u : String) → alias_of k aliases ≡ none → Dict.get k aliases ≡ none
unfolding alias_of
alias_of-get aliases k u e = ground (arith, e)

get-write_arg :
    (aliases : Dict String) (j u key : String) (value : ℕ) (args result : Dict ℕ)
    → IsTable aliases
    → Dict.get j aliases ≡ some u
    → Dict.get j result ≡ none
    → Dict.get j (write_arg (alias_of key aliases) key value args result) ≡ none
unfolding write_arg
get-write_arg aliases j u key value args result t e h = elim (Option-cases (alias_of key aliases)) [
  | inl f ↦
      let own = alias_of-get aliases key u f in
      rw f (ground (arith, e, own, h, get-set j key value result, eq_iff key j))
  | inr (target, f) ↦
      let apart = alias_of_apart aliases key target t f in
      rw f (ground (arith, e, apart, h, get-set j target value result, eq_iff target j))
]

get-rename_args :
    (aliases : Dict String) (j u : String) (args rest result : Dict ℕ)
    → IsTable aliases
    → Dict.get j aliases ≡ some u
    → Dict.get j result ≡ none
    → Dict.get j (rename_args aliases args rest result) ≡ none
unfolding rename_args
get-rename_args aliases j u args [] result t e h = h
get-rename_args aliases j u args ((key, value) ∷ rest) result t e h =
    get-rename_args aliases j u args rest _ t e
      (get-write_arg aliases j u key value args result t e h)

has_alias-renamed :
    (aliases part : Dict String) (args : Dict ℕ)
    → IsTable aliases
    → All (λ e. Dict.get e.0 aliases ≡ some e.1) part
    → has_alias part (rename_args aliases args args []) ≡ false
unfolding has_alias Dict.get
has_alias-renamed aliases [] args t h = refl
has_alias-renamed aliases ((k, target) ∷ part) args t h =
    let gone = get-rename_args aliases k target args args [] t h.0 refl in
    rw gone (has_alias-renamed aliases part args t h.1)

alias_args_idem :
    (aliases : Dict String) (args : Dict ℕ)
    → IsTable aliases
    → alias_args (some aliases) (alias_args (some aliases) args) ≡ alias_args (some aliases) args
unfolding alias_args
alias_args_idem aliases args t = elim (Bool-cases (has_alias aliases args)) [
  | inl e ↦ rw e (rw (has_alias-renamed aliases aliases args t t.entries) refl)
  | inr e ↦ rw e (rw e refl)
]

path_aliases-IsTable : IsTable path_aliases
unfolding Dict.get
path_aliases-IsTable = record {
  apart = (refl, tt);
  entries = (refl, tt);
  members = (
    refl,
    (refl, (refl, (refl, (refl, (refl, (refl, (refl, (refl, (refl, (refl, (refl, tt))))))))))),
  );
}

edit_aliases-IsTable : IsTable edit_aliases
unfolding Dict.get
edit_aliases-IsTable = record {
  apart = (refl, (refl, (refl, (refl, tt))));
  entries = (refl, (refl, (refl, (refl, tt))));
  members = (
    refl,
    (refl, (refl, (refl, (refl, (refl, (refl, (refl, (refl, (refl, (refl, (refl, tt))))))))))),
  );
}

arg_aliases-cases :
    (name : String)
    → (arg_aliases name ≡ none)
      ⊎ ((aliases : Dict String) × (arg_aliases name ≡ some aliases) × IsTable aliases)
unfolding arg_aliases
arg_aliases-cases name = elim (Bool-cases (name == "Read")) [
  | inl e ↦ inr (path_aliases, (rw e refl), path_aliases-IsTable)
  | inr e ↦ elim (Bool-cases (name == "Write")) [
    | inl f ↦ inr (path_aliases, (rw (e, f) refl), path_aliases-IsTable)
    | inr f ↦ elim (Bool-cases (name == "Edit")) [
      | inl g ↦ inr (edit_aliases, (rw (e, f, g) refl), edit_aliases-IsTable)
      | inr g ↦ inl (rw (e, f, g) refl)
    ]
  ]
]

Name-cases :
    (n : CanonicalName) → ((name : String) × (n ≡ named name)) ⊎ ((t : String) × (n ≡ member t))
Name-cases (named name) = inl (name, refl)
Name-cases (member t) = inr (t, refl)

some_cancel : (a b : ToolCall) → some a ≡ some b → a ≡ b
some_cancel a b e = ground (arith, e)

canonical_args_idem :
    (name : String) (args : Dict ℕ)
    → canonical_args name (canonical_args name args) ≡ canonical_args name args
unfolding canonical_args
canonical_args_idem name args = elim (arg_aliases-cases name) [
  | inl e ↦ unfold alias_args in rw e refl
  | inr (aliases, e, t) ↦ rw e (alias_args_idem aliases args t)
]

-- The canonical form of a call, if it has one, is its own canonical form, for its tool name and for
-- its argument names.
pub canonical_call_idem :
    (call canonical : ToolCall)
    → canonical_call call ≡ some canonical
    → canonical_call canonical ≡ some canonical
unfolding canonical_call
canonical_call_idem call canonical h = elim (Name-cases (canonical_tool_name call.name)) [
  | inr (t, e) ↦ absurd (ground (arith, e, h))
  | inl (name, e) ↦
      let args = canonical_args_idem name call.args in
      let fixed = canonical_tool_name_idem call.name name e in
      let c : ToolCall = record call { name = name; args = canonical_args name call.args } in
      let equal : c ≡ canonical = some_cancel c canonical (sym (rw (e, canonical_call) refl) ∙ h) in
      let again : canonical_call c
          ≡ some (record call { name = name; args = canonical_args name c.args }) =
        rw (fixed, canonical_call) refl in
      subst (λ x. canonical_call x ≡ some x) equal
        (again ∙ ap (λ a. some (record call { name = name; args = a })) args)
]
