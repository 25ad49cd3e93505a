-- ===== src/Ast/Statements.antt =====
-- ast.h: statements. The alternatives of StmtNode that hold no block are the constructors of
-- `PlainStmt`; the others, and the jumps, are those of `Stmt`.
use plainspeak.Prelude.{ℕ, Bool, Text, List, Option}
use plainspeak.Prelude.Int.{ℤ}
use plainspeak.Ast.Names.{Place, CImportKind}
use plainspeak.Ast.Expressions.{Expr, Exprs, TypeSpec, TypeSpecs, AggregateInitializer}

pub record NativeDecl : Type 0 where
  pub name : Text
  pub type : TypeSpec
  pub initializer : Option Expr
  pub aggregate_initializer : Option AggregateInitializer
  pub thread_local : Bool
  pub alignment : Option ℕ
  pub constexpr_object : Bool
  pub internal_linkage : Bool
  pub external_linkage : Bool
  pub static_storage : Bool
  pub deprecated : Bool
  pub deprecation_message : Text
  pub maybe_unused : Bool

pub record StructureField : Type 0 where
  pub name : Text
  pub type : TypeSpec
  pub bit_width : Option ℕ
  pub flexible_array : Bool

pub record EnumeratorDef : Type 0 where
  pub name : Text
  pub explicit_value : Option ℤ

pub record ProcedureParam : Type 0 where
  pub name : Text
  pub type : Option TypeSpec

-- The fields of a ProcedureStmt but its body.
pub record ProcedureHead : Type 0 where
  pub name : Text
  pub params : List ProcedureParam
  pub return_type : Option TypeSpec
  pub inline_specifier : Bool
  pub noreturn_specifier : Bool
  pub deprecated : Bool
  pub deprecation_message : Text
  pub maybe_unused : Bool
  pub variadic : Bool

pub data PlainStmt : Type 0 where
  say : Exprs → PlainStmt
  set_stmt : Text → Expr → PlainStmt
  native_decl : NativeDecl → PlainStmt
  structure_stmt : Text → List StructureField → PlainStmt
  union_stmt : Text → List StructureField → PlainStmt
  enumeration_stmt : Text → List EnumeratorDef → PlainStmt
  type_alias : Text → TypeSpec → PlainStmt
  -- pointer, expr
  store_through : Expr → Expr → PlainStmt
  -- index, base, expr
  store_element : Expr → Expr → Expr → PlainStmt
  store_member : Text → Expr → Expr → PlainStmt
  add_stmt : Expr → Text → PlainStmt
  sub_stmt : Expr → Text → PlainStmt
  read_stmt : Text → PlainStmt
  read_float : Text → PlainStmt
  append_stmt : Expr → Text → PlainStmt
  replace_item : Expr → Text → Expr → PlainStmt
  remove_item : Expr → Text → PlainStmt
  call_stmt : Text → Exprs → PlainStmt
  indirect_call_stmt : Expr → Exprs → PlainStmt
  va_start : Text → PlainStmt
  va_end : PlainStmt
  va_copy : Text → PlainStmt
  va_copy_end : Text → PlainStmt
  comment : Text → PlainStmt
  warning : Text → PlainStmt
  static_assert : Expr → Option Text → PlainStmt
  runtime_assert : Expr → PlainStmt
  atomic_fence : PlainStmt
  atomic_store : Text → Expr → PlainStmt
  c_import : CImportKind → Text → PlainStmt
  -- name, parameterTypes, returnType, header, variadic
  c_function_import : Text → TypeSpecs → TypeSpec → Text → Bool → PlainStmt
  -- name, type, header
  c_object_import : Text → TypeSpec → Text → PlainStmt
  -- name, cName, type, header
  c_constant_import : Text → Text → TypeSpec → Text → PlainStmt

mutual
  pub data Stmt : Type 0 where
    plain : Place → PlainStmt → Stmt
    break_stmt : Place → Stmt
    continue_stmt : Place → Stmt
    repeat_stmt : Place → Expr → Stmts → Stmt
    -- cond, thenBody, elseBody
    if_stmt : Place → Expr → Stmts → Stmts → Stmt
    -- macroName, thenBody, elifBranches, elseBody
    compile_if : Place → Text → Stmts → Elifs → Stmts → Stmt
    while_stmt : Place → Expr → Stmts → Stmt
    do_while : Place → Stmts → Expr → Stmt
    -- itemName, list, body
    for_each : Place → Text → Expr → Stmts → Stmt
    -- varName, from, to, descending, body
    for_stmt : Place → Text → Expr → Expr → Bool → Stmts → Stmt
    switch_stmt : Place → Expr → Cases → Stmt
    goto_stmt : Place → Text → Stmt
    label_stmt : Place → Text → Stmt
    procedure : Place → ProcedureHead → Stmts → Stmt
    return_stmt : Place → Option Expr → Stmt

  -- std::vector<Stmt *>
  pub data Stmts : Type 0 where
    done : Stmts
    then_stmt : Stmt → Stmts → Stmts

  -- std::vector<SwitchCase>; a default clause has no value
  pub data Cases : Type 0 where
    no_cases : Cases
    a_case : Option Expr → Stmts → Cases → Cases

  -- std::vector<CompileElifBranch>
  pub data Elifs : Type 0 where
    no_elifs : Elifs
    an_elif : Text → Stmts → Elifs → Elifs
