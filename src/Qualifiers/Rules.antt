-- ===== src/Qualifiers/Rules.antt =====
-- The rules for type qualifiers that docs/grammar.md and the messages of validateTypeQualifiers
-- (src/sema/sema.cpp) state, and the parts of a type they hold for.
use plainspeak.Prelude.{◌≡◌, ◌≢◌, ◌⊎◌, true, false}
use plainspeak.Types.Model.{
  TypeKind, TypeInfo, SemanticType, OptType, Types, a_type, the_type, and_type, kind_of,
}

-- A set pointer, to a type that is neither void nor a function.
pub record ToObject (e : OptType) : Type 0 where
  pub pointee : SemanticType
  pub is_pointee : e ≡ the_type pointee
  pub not_void : kind_of pointee ≢ TypeKind.void
  pub not_function : kind_of pointee ≢ TypeKind.function

-- restricted stands only on a pointer to an object, atomic on no void, array or function, and no
-- qualifier on a function.
pub record Allowed (i : TypeInfo) (e : OptType) : Type 0 where
  pub restricted : i.qualifiers.is_restrict ≡ true → (i.kind ≡ TypeKind.pointer) × ToObject e
  pub atomic :
      i.qualifiers.is_atomic ≡ true
      → (i.kind ≢ TypeKind.void) × (i.kind ≢ TypeKind.array) × (i.kind ≢ TypeKind.function)
  pub bare :
      i.kind ≡ TypeKind.function
      → (i.qualifiers.is_const ≡ false)
        × (i.qualifiers.is_volatile ≡ false)
        × (i.qualifiers.is_restrict ≡ false)
        × (i.qualifiers.is_atomic ≡ false)

abbrev pub Lawful : SemanticType → Type 0
Lawful (a_type i e r ps) = Allowed i e

-- p is what a shared_ptr<Type> holds.
pub data Held (p : SemanticType) : OptType → Type 0 where
  held : Held p (the_type p)

pub data Among (p : SemanticType) : Types → Type 0 where
  first : {ps : Types} → Among p (and_type p ps)
  later : {q : SemanticType} {ps : Types} → Among p ps → Among p (and_type q ps)

-- u is the type itself, or occurs in what it points to, its elements, its result or a parameter.
pub data Occurs (u : SemanticType) : SemanticType → Type 0 where
  itself : Occurs u u
  inside :
      {i : TypeInfo} {p : SemanticType} {e r : OptType} {ps : Types}
      → (i.kind ≡ TypeKind.pointer) ⊎ (i.kind ≡ TypeKind.array)
      → Held p e
      → Occurs u p
      → Occurs u (a_type i e r ps)
  result :
      {i : TypeInfo} {p : SemanticType} {e r : OptType} {ps : Types}
      → i.kind ≡ TypeKind.function
      → Held p r
      → Occurs u p
      → Occurs u (a_type i e r ps)
  parameter :
      {i : TypeInfo} {p : SemanticType} {e r : OptType} {ps : Types}
      → i.kind ≡ TypeKind.function
      → Among p ps
      → Occurs u p
      → Occurs u (a_type i e r ps)
