-- ===== src/Ast/Expressions.antt =====
-- ast.h: expressions, type spellings and aggregate initialisers, which name one another.
-- A double literal is kept as the decimal text that `std::stod` reads.
use plainspeak.Prelude.{ℕ, Bool, Text}
use plainspeak.Prelude.Int.{ℤ}
use plainspeak.Ast.Names.{
  Place, ListElementKind, SpecInfo, AggregateInitKind, BinOp, UnaryOp, IncDecKind,
}

mutual
  -- ExprNode, with the place of its Expr.
  pub data Expr : Type 0 where
    int_lit : Place → ℤ → Expr
    bool_lit : Place → Bool → Expr
    float_lit : Place → Text → Expr
    string_lit : Place → Text → Expr
    nullptr_lit : Place → Expr
    var_ref : Place → Text → Expr
    length_expr : Place → Expr → Expr
    size_of_type : Place → TypeSpec → Expr
    size_of : Place → Expr → Expr
    align_of_type : Place → TypeSpec → Expr
    limit_of_type : Place → TypeSpec → Bool → Expr
    offset_of : Place → Text → TypeSpec → Expr
    lock_free : Place → Text → Expr
    atomic_exchange : Place → Text → Expr → Expr
    atomic_rmw : Place → Text → Text → Expr → Expr
    address_of : Place → Text → Expr
    deref : Place → Expr → Expr
    cast : Place → Expr → TypeSpec → Expr
    inc_dec : Place → IncDecKind → Expr → Expr
    -- whenTrue, condition, whenFalse
    conditional : Place → Expr → Expr → Expr → Expr
    compound_literal : Place → TypeSpec → AggregateInitializer → Expr
    generic_selection : Place → Expr → Associations → OptExpr → Expr
    -- index, base
    element : Place → Expr → Expr → Expr
    member : Place → Text → Expr → Expr
    enumerator : Place → Text → Text → Expr
    math_call : Place → Text → Expr → Expr
    call : Place → Text → Exprs → Expr
    indirect_call : Place → Expr → Exprs → Expr
    pow : Place → Expr → Expr → Expr
    binary : Place → BinOp → Expr → Expr → Expr
    unary : Place → UnaryOp → Expr → Expr
    list_expr : Place → Exprs → Expr
    empty_list : Place → ListElementKind → Expr
    -- index, list
    item : Place → Expr → Expr → Expr
    va_arg : Place → TypeSpec → Text → Expr

  -- std::vector<Expr *>
  pub data Exprs : Type 0 where
    no_exprs : Exprs
    an_expr : Expr → Exprs → Exprs

  -- An Expr * that may be null.
  pub data OptExpr : Type 0 where
    null_expr : OptExpr
    the_expr : Expr → OptExpr

  -- The scalar fields, then pointee, typeOfExpr, returnType, parameterTypes, arrayLengthExpr.
  pub data TypeSpec : Type 0 where
    type_spec : SpecInfo → OptTypeSpec → OptExpr → OptTypeSpec → TypeSpecs → OptExpr → TypeSpec

  pub data OptTypeSpec : Type 0 where
    null_spec : OptTypeSpec
    the_spec : TypeSpec → OptTypeSpec

  pub data TypeSpecs : Type 0 where
    no_specs : TypeSpecs
    a_spec : TypeSpec → TypeSpecs → TypeSpecs

  pub data AggregateInitializer : Type 0 where
    aggregate : AggregateInitKind → Entries → AggregateInitializer

  -- std::vector<AggregateInitEntry>: memberName, elementIndex, and either expr or nested
  pub data Entries : Type 0 where
    no_entries : Entries
    expr_entry : Text → ℕ → Expr → Entries → Entries
    nested_entry : Text → ℕ → AggregateInitializer → Entries → Entries

  -- std::vector<GenericAssociation>
  pub data Associations : Type 0 where
    no_associations : Associations
    an_association : TypeSpec → Expr → Associations → Associations
