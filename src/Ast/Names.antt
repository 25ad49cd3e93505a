-- ===== src/Ast/Names.antt =====
-- ast.h: the enumerations and the plain structs of the tree.
use plainspeak.Prelude.{ℕ, Bool, Text}

-- The arena address of a node (its identity as a `const Expr *` or `const Stmt *`) and its line.
pub record Place : Type 0 where
  pub address : ℕ
  pub line : ℕ

pub data ListElementKind : Type 0 where
  number decimal string : ListElementKind

pub data TypeSpecKind : Type 0 where
  void boolean character signed_character unsigned_character : TypeSpecKind
  short_integer unsigned_short_integer integer unsigned_integer : TypeSpecKind
  long_integer unsigned_long_integer long_long_integer unsigned_long_long_integer : TypeSpecKind
  float decimal long_decimal pointer array structure union enumeration nullptr : TypeSpecKind
  alias type_of type_of_unqual auto bit_int size_type ptrdiff_type complex : TypeSpecKind
  function fixed_integer stdint_integer : TypeSpecKind

pub record TypeSpecQualifiers : Type 0 where
  pub is_const : Bool
  pub is_volatile : Bool
  pub is_restrict : Bool
  pub is_atomic : Bool

-- The fields of a TypeSpec that hold no other node.
pub record SpecInfo : Type 0 where
  pub kind : TypeSpecKind
  pub array_bound : ℕ
  pub tag : Text
  pub type_of_name : Text
  pub bit_width : ℕ
  pub bit_int_unsigned : Bool
  pub qualifiers : TypeSpecQualifiers
  pub variadic : Bool
  pub exact_width : ℕ
  pub fixed_unsigned : Bool
  pub stdint_unsigned : Bool
  pub stdint_fast : Bool

pub data AggregateInitKind : Type 0 where
  empty scalar positional members elements : AggregateInitKind

pub data BinOp : Type 0 where
  add sub mul div modulo shift_left shift_right gt lt eq ne ge le : BinOp
  bit_and bit_xor bit_or and or comma : BinOp

pub data UnaryOp : Type 0 where
  not neg bit_not : UnaryOp

pub data IncDecKind : Type 0 where
  prefix_increment prefix_decrement postfix_increment postfix_decrement : IncDecKind

pub data CImportKind : Type 0 where
  header library : CImportKind
