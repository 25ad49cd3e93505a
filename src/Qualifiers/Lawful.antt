-- ===== src/Qualifiers/Lawful.antt =====
-- src/sema/sema.cpp: the tests of validateTypeQualifiers on one type are the rules for its qualifiers.
use plainspeak.Prelude.{◌≡◌, ◌≢◌, ◌↔◌, refl, ap, ◌∙◌, true, false, not, ◌&&◌, arith}
use plainspeak.Types.Model.{
  TypeKind, TypeInfo, SemanticType, OptType, Types, a_type, null_type, the_type, kind_of,
}
use plainspeak.Types.Equality.{kind_eq}
use plainspeak.Types.Equality.Correct.{kind_eq_sound, kind_eq_refl}
use plainspeak.Types.Predicates.{holds, is_object_pointee}
use plainspeak.Qualifiers.{restrict_fails, atomic_fails, function_fails}
use plainspeak.Qualifiers.Rules.{ToObject, Lawful}

pub kind_eq_iff : (a b : TypeKind) → (kind_eq a b ≡ true) ↔ (a ≡ b)
kind_eq_iff a b = (kind_eq_sound a b, λ q. ap (λ k. kind_eq k b) q ∙ kind_eq_refl b)

kind_ne : (a b : TypeKind) → (kind_eq a b ≡ false) ↔ (a ≢ b)
kind_ne a b = ground (arith, kind_eq_iff a b)

object-ToObject : (e : OptType) → (holds is_object_pointee e ≡ true) ↔ ToObject e
object-ToObject null_type = (λ h. cc, λ o. absurd (unset o.pointee o.is_pointee))
  where
    unset : (t : SemanticType) → null_type ≢ the_type t
    unset t q = cc
object-ToObject (the_type t) = (
  λ h. record {
    pointee = t;
    is_pointee = refl;
    not_void = ground (arith, h, kind_ne (kind_of t) TypeKind.void);
    not_function = ground (arith, h, kind_ne (kind_of t) TypeKind.function);
  },
  λ o.
      let q : kind_of t ≡ kind_of o.pointee = same t o.pointee o.is_pointee in
      ground (
        arith,
        q,
        o.not_void,
        o.not_function,
        kind_ne (kind_of t) TypeKind.void,
        kind_ne (kind_of t) TypeKind.function,
      ),
)
  where
    held : (a b : SemanticType) → the_type a ≡ the_type b → a ≡ b
    held a b q = cc

    same : (a b : SemanticType) → the_type a ≡ the_type b → kind_of a ≡ kind_of b
    same a b q = ap (λ t. kind_of t) (held a b q)

module _ (i : TypeInfo) (e : OptType) (r : OptType) (ps : Types) where
  restrict-allowed :
      (restrict_fails (a_type i e r ps) ≡ false)
      ↔ (i.qualifiers.is_restrict ≡ true → (i.kind ≡ TypeKind.pointer) × ToObject e)
  restrict-allowed = ground (arith, object-ToObject e, kind_eq_iff i.kind TypeKind.pointer)

  atomic-allowed : (atomic_fails (a_type i e r ps) ≡ false) ↔ (
      i.qualifiers.is_atomic ≡ true
      → (i.kind ≢ TypeKind.void) × (i.kind ≢ TypeKind.array) × (i.kind ≢ TypeKind.function))
  atomic-allowed = ground (
    arith,
    kind_eq_iff i.kind TypeKind.void,
    kind_eq_iff i.kind TypeKind.array,
    kind_eq_iff i.kind TypeKind.function,
  )

  function-allowed : (function_fails (a_type i e r ps) ≡ false) ↔ (
      i.kind ≡ TypeKind.function
      → (i.qualifiers.is_const ≡ false)
        × (i.qualifiers.is_volatile ≡ false)
        × (i.qualifiers.is_restrict ≡ false)
        × (i.qualifiers.is_atomic ≡ false))
  function-allowed = ground (arith, kind_eq_iff i.kind TypeKind.function)

pub own-Lawful :
    (t : SemanticType)
    → ((not (restrict_fails t) && not (atomic_fails t) && not (function_fails t)) ≡ true) ↔ Lawful t
own-Lawful (a_type i e r ps) = (
  λ h. record {
    restricted = (restrict-allowed i e r ps).0 (ground (arith, h));
    atomic = (atomic-allowed i e r ps).0 (ground (arith, h));
    bare = (function-allowed i e r ps).0 (ground (arith, h));
  },
  λ a.
      rw
        (
          (restrict-allowed i e r ps).1 a.restricted,
          (atomic-allowed i e r ps).1 a.atomic,
          (function-allowed i e r ps).1 a.bare,
        )
        refl,
)
