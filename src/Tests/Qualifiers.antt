-- ===== src/Tests/Qualifiers.antt =====
-- Qualifiers that src/sema/sema.cpp checks, and the spelling of types.
use plainspeak.Prelude.{◌≡◌, refl, true, false, codes, []}
use plainspeak.Types.Model.{
  SemanticType, int, integer_type, pointer_to, with_qualifiers, no_qualifiers,
}
use plainspeak.Types.Spelling.{type_to_string}
use plainspeak.Qualifiers.{validate_type_qualifiers}
use plainspeak.Qualifiers.Correct.{Judges, validate_type_qualifiers-Judges}

-- a pointer to a restricted integer, which C does not allow
abbrev to_restricted : SemanticType
to_restricted =
    pointer_to
      (with_qualifiers (record no_qualifiers { is_restrict = true }) (integer_type int false))

to_restricted_name : type_to_string to_restricted ≡ codes "pointer to restricted integer"
unfolding type_to_string
to_restricted_name = refl

validate_type_qualifiers-Judges_example :
    Judges to_restricted (true, []) (validate_type_qualifiers to_restricted 7 (true, []))
validate_type_qualifiers-Judges_example = validate_type_qualifiers-Judges to_restricted 7 (true, [])
