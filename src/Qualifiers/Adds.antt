-- ===== src/Qualifiers/Adds.antt =====
-- src/sema/sema.cpp: how the calls of validateTypeQualifiers add to its answer and the diagnostics.
use plainspeak.Prelude.{
  ℕ, ◌≡◌, refl, sym, ap, ap₂, ◌∙◌, Bool, true, false, not, ◌&&◌, ◌||◌, List, [], ◌∷◌, ◌++◌,
  if◌then◌else◌, arith,
}
use plainspeak.Types.Model.{
  TypeKind, SemanticType, OptType, Types, a_type, null_type, the_type, no_types, and_type,
}
use plainspeak.Types.Equality.{kind_eq}
use plainspeak.Scopes.{Diag}
use plainspeak.Scopes.Labels.{is_nil, is_nil-append, append_assoc, append_nil}
use plainspeak.Qualifiers.{
  Checked, report_if, restrict_fails, atomic_fails, function_fails, restrict_diag, atomic_diag,
  function_diag, own_checks, validate_type_qualifiers, validate_inside, validate_parameters,
}

-- Whether the tests pass on a type, at every depth.
unfoldable mutual
  pub well_qualified : SemanticType → Bool
  well_qualified (a_type i e r ps) =
      let own =
        not (restrict_fails (a_type i e r ps))
        && not (atomic_fails (a_type i e r ps))
        && not (function_fails (a_type i e r ps)) in
      let inside = well_inside e in
      let signature = well_inside r && well_parameters ps in
      own
      && (if kind_eq i.kind TypeKind.pointer || kind_eq i.kind TypeKind.array
          then inside
          else if kind_eq i.kind TypeKind.function
          then signature
          else true)

  pub well_inside : OptType → Bool
  well_inside null_type = true
  well_inside (the_type t) = well_qualified t

  pub well_parameters : Types → Bool
  well_parameters no_types = true
  well_parameters (and_type t ts) = well_qualified t && well_parameters ts

-- From c to d diagnostics were added, none exactly if b holds, and the answer was and-ed with b.
pub record Adds (c : Checked) (b : Bool) (d : Checked) : Type 0 where
  pub added : List Diag
  pub list : d.1 ≡ c.1 ++ added
  pub none_added : is_nil added ≡ b
  pub answer : d.0 ≡ (c.0 && b)

nothing_added : (c : Checked) → Adds c true c
nothing_added (v, ds) = record {
  added = [];
  list = sym (append_nil ds);
  none_added = refl;
  answer = ground arith;
}

report_if-Adds : (test : Bool) (x : Diag) (c : Checked) → Adds c (not test) (report_if test x c)
report_if-Adds true x (v, ds) = record {
  added = x ∷ [];
  list = refl;
  none_added = refl;
  answer = ground arith;
}
report_if-Adds false x (v, ds) = nothing_added (v, ds)

Adds-trans : (c d e : Checked) (a b : Bool) → Adds c a d → Adds d b e → Adds c (a && b) e
Adds-trans c d e a b f g = record {
  added = f.added ++ g.added;
  list = g.list ∙ ap (λ l. l ++ g.added) f.list ∙ append_assoc c.1 f.added g.added;
  none_added = is_nil-append f.added g.added ∙ ap₂ (λ x y. x && y) f.none_added g.none_added;
  answer = ground (arith, f.answer, g.answer);
}

own_checks-Adds :
    (t : SemanticType) (line : ℕ) (c : Checked)
    → Adds c
        (not (restrict_fails t) && not (atomic_fails t) && not (function_fails t))
        (own_checks t line c)
own_checks-Adds t line c =
    let first = report_if (restrict_fails t) (restrict_diag t line) c in
    let second = report_if (atomic_fails t) (atomic_diag t line) first in
    Adds-trans c second (own_checks t line c) (not (restrict_fails t) && not (atomic_fails t))
      (not (function_fails t))
      (Adds-trans c first second (not (restrict_fails t)) (not (atomic_fails t))
        (report_if-Adds (restrict_fails t) (restrict_diag t line) c)
        (report_if-Adds (atomic_fails t) (atomic_diag t line) first))
      (report_if-Adds (function_fails t) (function_diag line) second)

choice-Adds :
    (p q b b' : Bool) (c d d' : Checked)
    → Adds c b d
    → Adds c b' d'
    → Adds c (if p then b else if q then b' else true) (if p then d else if q then d' else c)
choice-Adds true q b b' c d d' f g = f
choice-Adds false true b b' c d d' f g = g
choice-Adds false false b b' c d d' f g = nothing_added c

mutual
  unfolding validate_type_qualifiers well_qualified

  pub validate-Adds :
      (t : SemanticType) (line : ℕ) (c : Checked)
      → Adds c (well_qualified t) (validate_type_qualifiers t line c)
  validate-Adds (a_type i e r ps) line c =
      let t = a_type i e r ps in
      let own = own_checks t line c in
      let result = validate_inside r line own in
      Adds-trans c own (validate_type_qualifiers t line c)
        (not (restrict_fails t) && not (atomic_fails t) && not (function_fails t)) _
        (own_checks-Adds t line c)
        (choice-Adds (kind_eq i.kind TypeKind.pointer || kind_eq i.kind TypeKind.array)
          (kind_eq i.kind TypeKind.function) (well_inside e) (well_inside r && well_parameters ps)
          own (validate_inside e line own) (validate_parameters ps line result)
          (inside-Adds e line own)
          (Adds-trans own result (validate_parameters ps line result) (well_inside r)
            (well_parameters ps) (inside-Adds r line own) (parameters-Adds ps line result)))

  inside-Adds :
      (t : OptType) (line : ℕ) (c : Checked) → Adds c (well_inside t) (validate_inside t line c)
  inside-Adds null_type line c = nothing_added c
  inside-Adds (the_type t) line c = validate-Adds t line c

  parameters-Adds :
      (ts : Types) (line : ℕ) (c : Checked)
      → Adds c (well_parameters ts) (validate_parameters ts line c)
  parameters-Adds no_types line c = nothing_added c
  parameters-Adds (and_type t ts) line c =
      let d = validate_type_qualifiers t line c in
      Adds-trans c d (validate_parameters ts line d) (well_qualified t) (well_parameters ts)
        (validate-Adds t line c) (parameters-Adds ts line d)
