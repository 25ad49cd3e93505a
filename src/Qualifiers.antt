-- ===== src/Qualifiers.antt =====
-- src/sema/sema.cpp: validateTypeQualifiers. The diagnostics go to the end of a list, and each call
-- gives the list with its own added.
pub mod Rules
pub mod Lawful
pub mod Adds
pub mod Correct
use plainspeak.Prelude.{
  ℕ, Bool, true, false, not, ◌&&◌, ◌||◌, codes, List, [], ◌∷◌, ◌++◌, if◌then◌else◌,
}
use plainspeak.Types.Model.{
  TypeKind, TypeInfo, SemanticType, OptType, Types, a_type, null_type, the_type, no_types, and_type,
  info, element_type,
}
use plainspeak.Types.Equality.{kind_eq}
use plainspeak.Types.Predicates.{
  is_kind, is_pointer, holds, is_object_pointee, strip_top_qualifiers, has_any_qualifiers,
}
use plainspeak.Types.Spelling.{type_to_string}
use plainspeak.Scopes.{Diag, error_diag}

abbrev pub Checked : Type 0
Checked = Bool × List Diag

-- A test that adds a diagnostic and makes the answer false.
abbrev pub report_if : Bool → Diag → Checked → Checked
report_if test d (valid, diags) = if test then (false, diags ++ d ∷ []) else (valid, diags)

abbrev pub restrict_fails : SemanticType → Bool
restrict_fails t =
    (info t).qualifiers.is_restrict
    && not (is_pointer t && holds is_object_pointee (element_type t))

abbrev pub atomic_fails : SemanticType → Bool
atomic_fails t =
    (info t).qualifiers.is_atomic
    && (is_kind TypeKind.void t || is_kind TypeKind.array t || is_kind TypeKind.function t)

abbrev pub function_fails : SemanticType → Bool
function_fails t = is_kind TypeKind.function t && has_any_qualifiers (info t).qualifiers

abbrev pub restrict_diag : SemanticType → ℕ → Diag
restrict_diag t line = error_diag 24 line (
    codes "restricted may qualify only a pointer to an object type; "
    ++ type_to_string t
    ++ codes " does not satisfy that C constraint.")

abbrev pub atomic_diag : SemanticType → ℕ → Diag
atomic_diag t line = error_diag 24 line (
    codes "atomic cannot qualify "
    ++ type_to_string (strip_top_qualifiers t)
    ++ codes
        " because C does not permit _Atomic on void, array, or function types in this source surface.")

abbrev pub function_diag : ℕ → Diag
function_diag line =
    error_diag 24 line (codes "A function type cannot carry PlainSpeak type qualifiers.")

-- The three tests on the type itself, with the answer and diagnostics so far.
abbrev pub own_checks : SemanticType → ℕ → Checked → Checked
own_checks t line c = report_if (function_fails t) (function_diag line) (
    report_if (atomic_fails t) (atomic_diag t line)
      (report_if (restrict_fails t) (restrict_diag t line) c))

unfoldable mutual
  pub validate_type_qualifiers : SemanticType → ℕ → Checked → Checked
  validate_type_qualifiers (a_type i e r ps) line c =
      let own = own_checks (a_type i e r ps) line c in
      let inside = validate_inside e line own in
      let result = validate_inside r line own in
      let parameters = validate_parameters ps line result in
      if kind_eq i.kind TypeKind.pointer || kind_eq i.kind TypeKind.array
      then inside
      else if kind_eq i.kind TypeKind.function
      then parameters
      else own

  pub validate_inside : OptType → ℕ → Checked → Checked
  validate_inside null_type line c = c
  validate_inside (the_type t) line c = validate_type_qualifiers t line c

  pub validate_parameters : Types → ℕ → Checked → Checked
  validate_parameters no_types line c = c
  validate_parameters (and_type t ts) line c =
      validate_parameters ts line (validate_type_qualifiers t line c)
