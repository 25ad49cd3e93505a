-- ===== src/Types/Equality/Correct.antt =====
-- src/sema/type.h: operator== is equality of types up to the expressions that give the
-- variable-length arrays in them their lengths.
use plainspeak.Prelude.{
  ℕ, ◌≡◌, ◌↔◌, refl, ap, sym, ◌∙◌, Bool, true, ◌&&◌, ◌==◌, ==_iff, text_eq, text_eq_sound,
  text_eq_refl, Option, arith,
}
use plainspeak.Ast.{OptExpr}
use plainspeak.Types.Model.{
  TypeKind, IntegerRank, CharSignedness, FloatingRank, TypeQualifiers, TypeInfo, SemanticType,
  OptType, Types, a_type, null_type, the_type, no_types, and_type, kind_of, qualifiers_of,
  no_qualifiers, element_type,
}
use plainspeak.Types.Equality.{
  kind_number, rank_number, signedness_number, floating_number, kind_eq, rank_eq, signedness_eq,
  floating_eq, qualifiers_eq, info_eq, type_eq, opt_type_eq, types_eq, bool_eq, size_eq,
}

pub kind_eq_sound : (a b : TypeKind) → kind_eq a b ≡ true → a ≡ b
unfolding kind_number
kind_eq_sound a b h = ground arith

rank_eq_sound : (a b : IntegerRank) → rank_eq a b ≡ true → a ≡ b
unfolding rank_number
rank_eq_sound a b h = ground arith

signedness_eq_sound : (a b : CharSignedness) → signedness_eq a b ≡ true → a ≡ b
unfolding signedness_number
signedness_eq_sound a b h = ground arith

floating_eq_sound : (a b : FloatingRank) → floating_eq a b ≡ true → a ≡ b
unfolding floating_number
floating_eq_sound a b h = ground arith

bool_eq_sound : (a b : Bool) → bool_eq a b ≡ true → a ≡ b
bool_eq_sound a b h = ground arith

size_eq_sound : (a b : Option ℕ) → size_eq a b ≡ true → a ≡ b
size_eq_sound a b h = ground arith

pub kind_eq_refl : (a : TypeKind) → kind_eq a a ≡ true
unfolding kind_number
kind_eq_refl a = ground arith

rank_eq_refl : (a : IntegerRank) → rank_eq a a ≡ true
unfolding rank_number
rank_eq_refl a = ground arith

signedness_eq_refl : (a : CharSignedness) → signedness_eq a a ≡ true
unfolding signedness_number
signedness_eq_refl a = ground arith

floating_eq_refl : (a : FloatingRank) → floating_eq a a ≡ true
unfolding floating_number
floating_eq_refl a = ground arith

bool_eq_refl : (a : Bool) → bool_eq a a ≡ true
bool_eq_refl a = ground arith

size_eq_refl : (a : Option ℕ) → size_eq a a ≡ true
size_eq_refl a = ground arith

qualifiers_eq_sound : (p q : TypeQualifiers) → qualifiers_eq p q ≡ true → p ≡ q
unfolding qualifiers_eq
qualifiers_eq_sound p q h = ground arith

qualifiers_eq_refl : (p : TypeQualifiers) → qualifiers_eq p p ≡ true
unfolding qualifiers_eq
qualifiers_eq_refl p = ground (
  arith,
  bool_eq_refl p.is_const,
  bool_eq_refl p.is_volatile,
  bool_eq_refl p.is_restrict,
  bool_eq_refl p.is_atomic,
)

-- The fields without arrayLengthExpr.
abbrev pub erase_info : TypeInfo → TypeInfo
erase_info i = record i { array_length_expr = OptExpr.null_expr }

mutual
  -- A type with its length expressions left out.
  pub erase_lengths : SemanticType → SemanticType
  erase_lengths (a_type i e r ps) = a_type (erase_info i) (erase_opt e) (erase_opt r) (erase_all ps)

  pub erase_opt : OptType → OptType
  erase_opt null_type = null_type
  erase_opt (the_type t) = the_type (erase_lengths t)

  pub erase_all : Types → Types
  erase_all no_types = no_types
  erase_all (and_type t ts) = and_type (erase_lengths t) (erase_all ts)

both : {a b : Bool} → (a && b) ≡ true → (a ≡ true) × (b ≡ true)
both {a} {b} h = ground arith

-- What info_eq finds, field by field.
info_eq-parts :
    (i j : TypeInfo)
    → info_eq i j ≡ true
    → ((kind_eq i.kind j.kind ≡ true)
        × (qualifiers_eq i.qualifiers j.qualifiers ≡ true)
        × (rank_eq i.integer_rank j.integer_rank ≡ true)
        × (signedness_eq i.char_signedness j.char_signedness ≡ true)
        × (floating_eq i.floating_rank j.floating_rank ≡ true)
        × (bool_eq i.is_unsigned j.is_unsigned ≡ true))
      × ((i.bit_width == j.bit_width) ≡ true)
      × (size_eq i.exact_width j.exact_width ≡ true)
      × (text_eq i.stdint_family j.stdint_family ≡ true)
      × (size_eq i.array_bound j.array_bound ≡ true)
      × (bool_eq i.variable_length_array j.variable_length_array ≡ true)
      × (bool_eq i.variadic j.variadic ≡ true)
      × (text_eq i.tag j.tag ≡ true)
unfolding info_eq
info_eq-parts i j h = ground arith

info_eq_sound : (i j : TypeInfo) → info_eq i j ≡ true → erase_info i ≡ erase_info j
info_eq_sound i j h =
    let ((a, b, c, d, e, f), g, k, l, m, n, o, p) = info_eq-parts i j h in
    let a' = kind_eq_sound i.kind j.kind a in
    let b' = qualifiers_eq_sound i.qualifiers j.qualifiers b in
    let c' = rank_eq_sound i.integer_rank j.integer_rank c in
    let d' = signedness_eq_sound i.char_signedness j.char_signedness d in
    let e' = floating_eq_sound i.floating_rank j.floating_rank e in
    let f' = bool_eq_sound i.is_unsigned j.is_unsigned f in
    let g' = (==_iff i.bit_width j.bit_width).0 g in
    let k' = size_eq_sound i.exact_width j.exact_width k in
    let l' = text_eq_sound i.stdint_family j.stdint_family l in
    let m' = size_eq_sound i.array_bound j.array_bound m in
    let n' = bool_eq_sound i.variable_length_array j.variable_length_array n in
    let o' = bool_eq_sound i.variadic j.variadic o in let p' = text_eq_sound i.tag j.tag p in cc

info_eq_refl : (i : TypeInfo) → info_eq i i ≡ true
unfolding info_eq
info_eq_refl i = ground (
  arith,
  kind_eq_refl i.kind,
  rank_eq_refl i.integer_rank,
  signedness_eq_refl i.char_signedness,
  floating_eq_refl i.floating_rank,
  qualifiers_eq_refl i.qualifiers,
  bool_eq_refl i.is_unsigned,
  size_eq_refl i.exact_width,
  text_eq_refl i.stdint_family,
  size_eq_refl i.array_bound,
  bool_eq_refl i.variable_length_array,
  bool_eq_refl i.variadic,
  text_eq_refl i.tag,
)

info_eq-erase_info : (i j : TypeInfo) → info_eq i j ≡ info_eq (erase_info i) (erase_info j)
unfolding info_eq
info_eq-erase_info i j = refl

info_eq_complete : (i j : TypeInfo) → erase_info i ≡ erase_info j → info_eq i j ≡ true
info_eq_complete i j h = rw (info_eq-erase_info i j, h) (info_eq_refl (erase_info j))

mutual
  unfolding type_eq erase_lengths

  pub type_eq_sound : (s t : SemanticType) → type_eq s t ≡ true → erase_lengths s ≡ erase_lengths t
  type_eq_sound (a_type i e r ps) (a_type j f u qs) h =
      ground (
        arith,
        info_eq_sound i j,
        types_eq_sound ps qs,
        opt_type_eq_sound e f,
        opt_type_eq_sound r u,
      )

  opt_type_eq_sound : (s t : OptType) → opt_type_eq s t ≡ true → erase_opt s ≡ erase_opt t
  opt_type_eq_sound null_type null_type h = refl
  opt_type_eq_sound null_type (the_type t) h = cc
  opt_type_eq_sound (the_type s) null_type h = cc
  opt_type_eq_sound (the_type s) (the_type t) h = ap the_type (type_eq_sound s t h)

  types_eq_sound : (s t : Types) → types_eq s t ≡ true → erase_all s ≡ erase_all t
  types_eq_sound no_types no_types h = refl
  types_eq_sound no_types (and_type t ts) h = cc
  types_eq_sound (and_type s ss) no_types h = cc
  types_eq_sound (and_type s ss) (and_type t ts) h =
      ground (arith, type_eq_sound s t, types_eq_sound ss ts)

mutual
  unfolding type_eq erase_lengths

  pub type_eq_complete :
      (s t : SemanticType) → erase_lengths s ≡ erase_lengths t → type_eq s t ≡ true
  type_eq_complete (a_type i e r ps) (a_type j f u qs) h = ground (
    arith,
    info_eq_complete i j,
    types_eq_complete ps qs,
    opt_type_eq_complete e f,
    opt_type_eq_complete r u,
  )

  opt_type_eq_complete : (s t : OptType) → erase_opt s ≡ erase_opt t → opt_type_eq s t ≡ true
  opt_type_eq_complete null_type null_type h = refl
  opt_type_eq_complete null_type (the_type t) h = cc
  opt_type_eq_complete (the_type s) null_type h = cc
  opt_type_eq_complete (the_type s) (the_type t) h = ground (arith, type_eq_complete s t)

  types_eq_complete : (s t : Types) → erase_all s ≡ erase_all t → types_eq s t ≡ true
  types_eq_complete no_types no_types h = refl
  types_eq_complete no_types (and_type t ts) h = cc
  types_eq_complete (and_type s ss) no_types h = cc
  types_eq_complete (and_type s ss) (and_type t ts) h =
      ground (arith, type_eq_complete s t, types_eq_complete ss ts)

-- operator== of Type says that two types are equal exactly when they agree in every field, at every
-- depth, but for the expressions that give variable-length arrays their lengths.
pub type_eq_iff : (s t : SemanticType) → (type_eq s t ≡ true) ↔ (erase_lengths s ≡ erase_lengths t)
type_eq_iff s t = (type_eq_sound s t, type_eq_complete s t)

pub type_eq_refl : (t : SemanticType) → type_eq t t ≡ true
type_eq_refl t = type_eq_complete t t refl

pub type_eq-kind_of : (a b : SemanticType) → type_eq a b ≡ true → kind_of a ≡ kind_of b
unfolding erase_lengths
type_eq-kind_of (a_type i e r ps) (a_type j f s qs) h =
    ap (λ t. kind_of t) (type_eq_sound (a_type i e r ps) (a_type j f s qs) h)

abbrev pointee_qualifiers : OptType → TypeQualifiers
pointee_qualifiers null_type = no_qualifiers
pointee_qualifiers (the_type t) = qualifiers_of t

pub type_eq-pointee :
    (a b p q : SemanticType)
    → type_eq a b ≡ true
    → element_type a ≡ the_type p
    → element_type b ≡ the_type q
    → qualifiers_of p ≡ qualifiers_of q
unfolding erase_lengths
type_eq-pointee (a_type i e r ps) (a_type j f s qs) (a_type i' e' r' ps') (a_type j' f' s' qs') h k
      l =
    let m = type_eq_sound (a_type i e r ps) (a_type j f s qs) h in
    let n : erase_opt e ≡ erase_opt f = ap (λ t. element_type t) m in
    let o : the_type (erase_lengths (a_type i' e' r' ps'))
        ≡ the_type (erase_lengths (a_type j' f' s' qs')) =
      ap erase_opt (sym k) ∙ n ∙ ap erase_opt l in
    ap (λ t. pointee_qualifiers t) o
