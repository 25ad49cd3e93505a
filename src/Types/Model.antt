-- ===== src/Types/Model.antt =====
-- src/sema/type.h: the semantic types, their factories and their predicates. The fields of a Type
-- that hold no Type are one record; `a_type` adds elementType, returnType and parameterTypes.
use plainspeak.Prelude.{ℕ, Bool, true, false, Text, [], Option, none, some, if◌then◌else◌}
use plainspeak.Ast.{OptExpr}

pub data TypeKind : Type 0 where
  void boolean integer floating string list pointer array function : TypeKind
  structure union enumeration bit_int nullptr complex : TypeKind

pub data IntegerRank : Type 0 where
  char short int long long_long : IntegerRank

pub data CharSignedness : Type 0 where
  plain signed unsigned : CharSignedness

pub data FloatingRank : Type 0 where
  float double long_double : FloatingRank

pub record TypeQualifiers : Type 0 where
  pub is_const : Bool
  pub is_volatile : Bool
  pub is_restrict : Bool
  pub is_atomic : Bool

pub record TypeInfo : Type 0 where
  pub kind : TypeKind
  pub qualifiers : TypeQualifiers
  pub integer_rank : IntegerRank
  pub char_signedness : CharSignedness
  pub floating_rank : FloatingRank
  pub is_unsigned : Bool
  pub bit_width : ℕ
  pub exact_width : Option ℕ
  pub stdint_family : Text
  pub array_bound : Option ℕ
  pub variable_length_array : Bool
  pub array_length_expr : OptExpr
  pub variadic : Bool
  pub tag : Text

mutual
  pub data SemanticType : Type 0 where
    a_type : TypeInfo → OptType → OptType → Types → SemanticType

  -- A shared_ptr<Type> that may be null.
  pub data OptType : Type 0 where
    null_type : OptType
    the_type : SemanticType → OptType

  pub data Types : Type 0 where
    no_types : Types
    and_type : SemanticType → Types → Types

abbrev pub info : SemanticType → TypeInfo
info (a_type i e r ps) = i

abbrev pub element_type : SemanticType → OptType
element_type (a_type i e r ps) = e

abbrev pub return_type : SemanticType → OptType
return_type (a_type i e r ps) = r

abbrev pub parameter_types : SemanticType → Types
parameter_types (a_type i e r ps) = ps

abbrev pub kind_of : SemanticType → TypeKind
kind_of t = (info t).kind

abbrev pub qualifiers_of : SemanticType → TypeQualifiers
qualifiers_of t = (info t).qualifiers

abbrev pub with_info : TypeInfo → SemanticType → SemanticType
with_info i (a_type j e r ps) = a_type i e r ps

abbrev pub no_qualifiers : TypeQualifiers
no_qualifiers = record {
  is_const = false;
  is_volatile = false;
  is_restrict = false;
  is_atomic = false;
}

abbrev pub with_qualifiers : TypeQualifiers → SemanticType → SemanticType
with_qualifiers q t = with_info (record (info t) { qualifiers = q }) t

-- `Type t;` with its kind set
abbrev pub info_of_kind : TypeKind → TypeInfo
info_of_kind k = record {
  kind = k;
  qualifiers = no_qualifiers;
  integer_rank = long;
  char_signedness = plain;
  floating_rank = double;
  is_unsigned = false;
  bit_width = 0;
  exact_width = none;
  stdint_family = [];
  array_bound = none;
  variable_length_array = false;
  array_length_expr = OptExpr.null_expr;
  variadic = false;
  tag = [];
}

abbrev pub leaf : TypeInfo → SemanticType
leaf i = a_type i null_type null_type no_types

abbrev pub of_kind : TypeKind → SemanticType
of_kind k = leaf (info_of_kind k)

abbrev pub wrapping : TypeInfo → SemanticType → SemanticType
wrapping i element = a_type i (the_type element) null_type no_types

abbrev pub void_type : SemanticType
void_type = of_kind void

abbrev pub boolean_type : SemanticType
boolean_type = of_kind boolean

abbrev pub signedness_for : IntegerRank → Bool → CharSignedness
signedness_for char unsigned_value = if unsigned_value then unsigned else signed
signedness_for rank unsigned_value = plain

abbrev pub integer_type : IntegerRank → Bool → SemanticType
integer_type rank unsigned_value = leaf (record (info_of_kind integer) {
  integer_rank = rank;
  is_unsigned = unsigned_value;
  char_signedness = signedness_for rank unsigned_value;
})

abbrev pub character_type : SemanticType
character_type = leaf (record (info_of_kind integer) { integer_rank = char })

abbrev pub number_type : SemanticType
number_type = integer_type long false

abbrev pub floating_type : FloatingRank → SemanticType
floating_type rank = leaf (record (info_of_kind floating) { floating_rank = rank })

abbrev pub decimal_type : SemanticType
decimal_type = floating_type double

abbrev pub complex_type : SemanticType
complex_type = of_kind complex

abbrev pub string_type : SemanticType
string_type = of_kind string

abbrev pub list_of : SemanticType → SemanticType
list_of element = wrapping (info_of_kind list) element

abbrev pub qualified_pointer_to : SemanticType → TypeQualifiers → SemanticType
qualified_pointer_to pointee q = wrapping (record (info_of_kind pointer) { qualifiers = q }) pointee

-- pointerTo with its default for the qualifiers, as every call of it in src/sema has it
abbrev pub pointer_to : SemanticType → SemanticType
pointer_to pointee = qualified_pointer_to pointee no_qualifiers

abbrev pub array_of : SemanticType → ℕ → SemanticType
array_of element bound = wrapping (record (info_of_kind array) { array_bound = some bound }) element

abbrev pub incomplete_array_of : SemanticType → SemanticType
incomplete_array_of element = wrapping (info_of_kind array) element

abbrev pub variable_array_of : SemanticType → OptExpr → SemanticType
variable_array_of element length_expr =
    wrapping
      (record (info_of_kind array) {
        variable_length_array = true;
        array_length_expr = length_expr;
      })
      element

abbrev pub function_type : SemanticType → Types → Bool → SemanticType
function_type result parameters is_variadic =
    a_type (record (info_of_kind function) { variadic = is_variadic }) null_type (the_type result)
      parameters

abbrev pub structure_type : Text → SemanticType
structure_type name = leaf (record (info_of_kind structure) { tag = name })

abbrev pub union_type : Text → SemanticType
union_type name = leaf (record (info_of_kind union) { tag = name })

abbrev pub enumeration_type : Text → SemanticType
enumeration_type name = leaf (record (info_of_kind enumeration) { tag = name })

abbrev pub bit_int_type : ℕ → Bool → SemanticType
bit_int_type width unsigned_value =
    leaf (record (info_of_kind bit_int) { bit_width = width; is_unsigned = unsigned_value })

abbrev pub nullptr_type : SemanticType
nullptr_type = of_kind nullptr
