-- ===== src/Approval.antt =====
-- harness/tools/names.ts and harness/approval/policy.ts: canonical tool names and argument names, and
-- the mode that a permission map gives to a call. The values of arguments are passed through unread
-- and stand as numbers. A record of the source is an object, so that a key that it does not have may
-- name a member of `Object.prototype`.
pub mod Names
pub mod Lifecycle
pub mod Tests
use Prim.Native.Char.{code}
use mini_dsh.Common.{
  ℕ, ◌+◌, String, Bool, true, false, ◌&&◌, Option, none, some, List, [], ◌∷◌, ◌==◌, eqb, leb,
  if◌then◌else◌, or_else, first_some, is_some, template,
}
use mini_dsh.Common.Dict
use mini_dsh.Common.Dict.{Dict}
use mini_dsh.Common.Text.{strip_prefix, before_dunder}

pub record ToolCall : Type 0 where
  pub id : String
  pub name : String
  pub args : Dict ℕ

-- `toLowerCase` of a code point, as far as the names of the tools can tell: no other character lowers
-- to one of their letters.
unfoldable pub lower_code : ℕ → ℕ
lower_code c = if leb 65 c && leb c 90 then c + 32 else c

unfoldable pub lowers_to : String → String → Bool
unfolding lower_code
lowers_to String.[] String.[] = true
lowers_to (String.◌∷◌ c s) (String.◌∷◌ d t) =
    let rest = lowers_to s t in eqb (lower_code (code c)) (code d) && rest
lowers_to _ _ = false

abbrev pub legacy_map : List (String × String)
legacy_map =
    ("read", "Read")
    ∷ ("write", "Write")
    ∷ ("edit", "Edit")
    ∷ ("glob", "Glob")
    ∷ ("grep", "Grep")
    ∷ ("bash", "Bash")
    ∷ []

unfoldable pub legacy_name : List (String × String) → String → Option String
legacy_name [] name = none
legacy_name ((legacy, canonical) ∷ rest) name =
    let later = legacy_name rest name in if lowers_to name legacy then some canonical else later

-- The members of `Object.prototype`, with the text that each one is as a key.
abbrev pub prototype_members : Dict String
prototype_members =
    ("constructor", "function Object() { [native code] }")
    ∷ ("__proto__", "[object Object]")
    ∷ ("toString", "function toString() { [native code] }")
    ∷ ("valueOf", "function valueOf() { [native code] }")
    ∷ ("toLocaleString", "function toLocaleString() { [native code] }")
    ∷ ("hasOwnProperty", "function hasOwnProperty() { [native code] }")
    ∷ ("isPrototypeOf", "function isPrototypeOf() { [native code] }")
    ∷ ("propertyIsEnumerable", "function propertyIsEnumerable() { [native code] }")
    ∷ ("__defineGetter__", "function __defineGetter__() { [native code] }")
    ∷ ("__defineSetter__", "function __defineSetter__() { [native code] }")
    ∷ ("__lookupGetter__", "function __lookupGetter__() { [native code] }")
    ∷ ("__lookupSetter__", "function __lookupSetter__() { [native code] }")
    ∷ []

-- A tool name, or a member of `Object.prototype` that took its place, with its text.
pub data CanonicalName : Type 0 where
  named : String → CanonicalName
  member : String → CanonicalName

unfoldable pub canonical_tool_name : String → CanonicalName
unfolding legacy_name lowers_to
canonical_tool_name name = elim (legacy_name legacy_map name) [
  | some canonical ↦ named canonical
  | none ↦ elim (legacy_name prototype_members name) [ some t ↦ member t | none ↦ named name ]
]

unfoldable pub name_key : CanonicalName → String
name_key (named name) = name
name_key (member t) = t

abbrev pub path_aliases : Dict String
path_aliases = ("file_path", "path") ∷ []

abbrev pub edit_aliases : Dict String
edit_aliases =
    ("file_path", "path")
    ∷ ("old_string", "old")
    ∷ ("new_string", "new")
    ∷ ("replace_all", "replaceAll")
    ∷ []

unfoldable pub arg_aliases : String → Option (Dict String)
arg_aliases name =
    if name == "Read"
    then some path_aliases
    else if name == "Write"
    then some path_aliases
    else if name == "Edit"
    then some edit_aliases
    else none

unfoldable pub has_alias : Dict String → Dict ℕ → Bool
has_alias [] args = false
has_alias ((alias, target) ∷ rest) args =
    let later = has_alias rest args in if Dict.has alias args then true else later

-- The loop over the entries: an alias takes the place of its target, if that is not given itself.
unfoldable pub write_arg : Option String → String → ℕ → Dict ℕ → Dict ℕ → Dict ℕ
write_arg none key value args result = Dict.set key value result
write_arg (some target) key value args result =
    if Dict.has target args then result else Dict.set target value result

-- `aliases[key]`, as a key.
unfoldable pub alias_of : String → Dict String → Option String
alias_of key aliases = first_some (Dict.get key aliases) (Dict.get key prototype_members)

unfoldable pub rename_args : Dict String → Dict ℕ → Dict ℕ → Dict ℕ → Dict ℕ
unfolding write_arg alias_of
rename_args aliases args [] result = result
rename_args aliases args ((key, value) ∷ rest) result =
    rename_args aliases args rest (write_arg (alias_of key aliases) key value args result)

unfoldable pub alias_args : Option (Dict String) → Dict ℕ → Dict ℕ
unfolding has_alias rename_args
alias_args none args = args
alias_args (some aliases) args =
    if has_alias aliases args then rename_args aliases args args [] else args

unfoldable pub canonical_args : String → Dict ℕ → Dict ℕ
unfolding arg_aliases alias_args
canonical_args name args = alias_args (arg_aliases name) args

-- `none` where the name becomes a member of `Object.prototype`, on which the callers throw as soon as
-- they use it as a text.
unfoldable pub canonical_call : ToolCall → Option ToolCall
unfolding canonical_tool_name canonical_args
canonical_call call = elim (canonical_tool_name call.name) [
  | named name ↦ some (record call { name = name; args = canonical_args name call.args })
  | member t ↦ none
]

pub data ApprovalMode : Type 0 where
  allow ask deny : ApprovalMode

unfoldable pub normalize : Dict ApprovalMode → Dict ApprovalMode → Dict ApprovalMode
unfolding canonical_tool_name name_key
normalize [] normalized = normalized
normalize ((name, mode) ∷ rest) normalized =
    normalize rest (Dict.set (name_key (canonical_tool_name name)) mode normalized)

-- `readPolicy` of the map that the policy's source gives.
unfoldable pub canonical_policy : Dict ApprovalMode → Dict ApprovalMode
unfolding normalize
canonical_policy policy = normalize policy []

-- `mcp__server__*` of a tool named `mcp__server__…`.
unfoldable pub wildcard_in : Option String → Option String
wildcard_in none = none
wildcard_in (some server) = some (template ("mcp__" ∷ server ∷ "__*" ∷ []))

unfoldable pub server_wildcard : Option String → Option String
unfolding wildcard_in before_dunder
server_wildcard none = none
server_wildcard (some rest) = wildcard_in (before_dunder rest)

unfoldable pub mode_of : Dict ApprovalMode → Option String → Option ApprovalMode
mode_of policy none = none
mode_of policy (some name) = Dict.get name policy

-- A member of `Object.prototype` is none of the modes, and what the code does then is to ask.
unfoldable pub inherited_mode : String → Option ApprovalMode
inherited_mode tool = if Dict.has tool prototype_members then some ask else none

unfoldable pub mode_for : Dict ApprovalMode → String → ApprovalMode → ApprovalMode
unfolding mode_of inherited_mode server_wildcard strip_prefix
mode_for policy tool default_mode =
    or_else
      (first_some (first_some (Dict.get tool policy) (inherited_mode tool)) (
        first_some (mode_of policy (server_wildcard (strip_prefix "mcp__" tool)))
          (Dict.get "*" policy)))
      default_mode

-- `forceAsk` turns `allow` into `ask`.
unfoldable pub final_mode : ApprovalMode → Bool → ApprovalMode
final_mode allow forced = if forced then ask else allow
final_mode mode forced = mode
