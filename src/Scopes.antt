-- ===== src/Scopes.antt =====
-- src/sema/sema.h and sema.cpp: the scopes of variables (enterScope to declareVar) and the labels of a
-- function (validateLabels, and what checkStmt does for Label and Go to). A map is a list of its
-- entries; the order of an unordered_map is the order of that list. The innermost scope stands first.
pub mod Lookup
pub mod Labels
use plainspeak.Prelude.{
  ℕ, Bool, true, false, not, ◌&&◌, ◌||◌, Text, text_eq, codes, List, [], ◌∷◌, ◌++◌, Option, none,
  some, if◌then◌else◌,
}
use plainspeak.Types.Model.{SemanticType, number_type}

pub data DiagSeverity : Type 0 where
  error warning : DiagSeverity

pub record Diag : Type 0 where
  pub code : ℕ
  pub line : ℕ
  pub message : Text
  pub severity : DiagSeverity

abbrev pub error_diag : ℕ → ℕ → Text → Diag
error_diag c l m = record { code = c; line = l; message = m; severity = error }

pub record Symbol : Type 0 where
  pub type : SemanticType
  pub native_object : Bool
  pub deprecated : Bool
  pub deprecation_message : Text
  pub maybe_unused : Bool

module _ {A : Type 0} where
  -- find, count and operator[] of an unordered_map with std::string keys
  unfoldable pub find : Text → List (Text × A) → Option A
  find key [] = none
  find key ((k, a) ∷ m) = if text_eq k key then some a else find key m

  unfoldable pub count : Text → List (Text × A) → Bool
  count key [] = false
  count key ((k, a) ∷ m) = text_eq k key || count key m

  unfoldable pub put : Text → A → List (Text × A) → List (Text × A)
  put key a [] = (key, a) ∷ []
  put key a ((k, b) ∷ m) = if text_eq k key then (k, a) ∷ m else (k, b) ∷ put key a m

abbrev pub Scope : Type 0
Scope = List (Text × Symbol)

-- scopes_
abbrev pub Scopes : Type 0
Scopes = List Scope

abbrev pub enter_scope : Scopes → Scopes
enter_scope scopes = [] ∷ scopes

abbrev pub leave_scope : Scopes → Scopes
leave_scope [] = []
leave_scope (scope ∷ scopes) = scopes

unfoldable pub find_var : Text → Scopes → Option Symbol
unfolding find
find_var name [] = none
find_var name (scope ∷ scopes) = elim (find name scope) [
  | none ↦ find_var name scopes
  | some symbol ↦ some symbol
]

-- The em dash of the message is three bytes.
abbrev pub undeclared : Text → ℕ → Diag
undeclared name line = error_diag 1 line (
    codes "I don't know what to do with \""
    ++ name
    ++ codes "\" "
    ++ (226 ∷ 128 ∷ 148 ∷ [])
    ++ codes " it is used here but never declared. Use Set or Declare to create it first.")

abbrev pub fallback_symbol : Symbol
fallback_symbol = record {
  type = number_type;
  native_object = false;
  deprecated = false;
  deprecation_message = [];
  maybe_unused = false;
}

unfoldable pub lookup_var : Text → ℕ → Scopes → List Diag → Symbol × Bool × List Diag
unfolding find_var
lookup_var name line scopes diags = elim (find_var name scopes) [
  | some symbol ↦ (symbol, true, diags)
  | none ↦ (fallback_symbol, false, diags ++ undeclared name line ∷ [])
]

abbrev pub redeclared : Text → ℕ → Diag
redeclared name line =
    error_diag 6 line (codes "variable \"" ++ name ++ codes "\" is already declared in this scope")

-- There is always a scope: analyze enters the first one.
unfoldable pub declare_var : Text → Symbol → ℕ → Scopes → List Diag → Bool × Scopes × List Diag
unfolding count put
declare_var name symbol line [] diags = (false, [], diags)
declare_var name symbol line (current ∷ outer) diags =
    if count name current
    then (false, current ∷ outer, diags ++ redeclared name line ∷ [])
    else (true, put name symbol current ∷ outer, diags)

-- labels_, gotoTargets_ and the diagnostics
pub record LabelTable : Type 0 where
  pub labels : List (Text × ℕ)
  pub goto_targets : List (Text × ℕ)
  pub diags : List Diag

-- A Label or a Go to, with its line
pub data Jump : Type 0 where
  label goto : Text → ℕ → Jump

abbrev pub duplicate_label : Text → ℕ → Diag
duplicate_label name line =
    error_diag 32 line (codes "Label \"" ++ name ++ codes "\" is already defined in this function.")

unfoldable pub check_jump : Jump → LabelTable → LabelTable
unfolding count put
check_jump (goto target line) t = record t { goto_targets = put target line t.goto_targets }
check_jump (label name line) t =
    if count name t.labels
    then record t { diags = t.diags ++ duplicate_label name line ∷ [] }
    else record t { labels = put name line t.labels }

abbrev pub missing_label : Text → ℕ → Diag
missing_label target line = error_diag 32 line (
    codes "Go to jumps to \""
    ++ target
    ++ codes "\" but no Label \""
    ++ target
    ++ codes "\" exists in this function.")

unfoldable pub missing_labels : List (Text × ℕ) → List (Text × ℕ) → List Diag
unfolding count
missing_labels labels [] = []
missing_labels labels ((target, line) ∷ targets) =
    if count target labels
    then missing_labels labels targets
    else missing_label target line ∷ missing_labels labels targets

unfoldable pub validate_labels : LabelTable → LabelTable
unfolding missing_labels
validate_labels t = record {
  labels = [];
  goto_targets = [];
  diags = t.diags ++ missing_labels t.labels t.goto_targets;
}

-- The Labels and Go tos of a function, in the order in which checkStmt meets them.
unfoldable pub check_jumps : List Jump → LabelTable → LabelTable
unfolding check_jump
check_jumps [] t = t
check_jumps (j ∷ js) t = check_jumps js (check_jump j t)

-- The declarations of a block, in order: a name, its symbol and the line.
unfoldable pub declare_all : List (Text × Symbol × ℕ) → Scopes → List Diag → Scopes × List Diag
unfolding declare_var
declare_all [] scopes diags = (scopes, diags)
declare_all ((name, symbol, line) ∷ ds) scopes diags =
    let (accepted, scopes', diags') = declare_var name symbol line scopes diags in
    declare_all ds scopes' diags'
