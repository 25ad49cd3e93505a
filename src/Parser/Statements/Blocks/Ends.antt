-- ===== src/Parser/Statements/Blocks/Ends.antt =====
-- src/parser/parser.cpp: where the blocks of statements end, and the condition of Unless and Until.
use plainspeak.Prelude.{ℕ, Bool, true, false, ◌||◌, Text, codes, [], ◌∷◌}
use plainspeak.Ast.{Expr, UnaryOp, Cases}
use plainspeak.Parser.{Cursor, Parser, pure, check_word, check_words, make_expr}
use plainspeak.Parser.Statements.Declarations.{at_end}

abbrev pub before_end_compile_if : Text
before_end_compile_if = codes "reached end of file while looking for \"End compile if.\""

abbrev pub end_compile_if : Cursor → Bool
end_compile_if =
    check_words 0 ((codes "end" ∷ []) ∷ (codes "compile" ∷ []) ∷ (codes "if" ∷ []) ∷ [])

-- The lambda atEndOrBranch of parseCompileIf.
abbrev pub at_end_or_branch : Cursor → Bool
at_end_or_branch c =
    end_compile_if c || (check_word (codes "otherwise") c || check_word (codes "elif") c)

abbrev pub end_conditional : Cursor → Bool
end_conditional = check_words 0 ((codes "end" ∷ []) ∷ (codes "if" ∷ codes "unless" ∷ []) ∷ [])

abbrev pub end_loop : Cursor → Bool
end_loop = check_words 0 ((codes "end" ∷ []) ∷ (codes "while" ∷ codes "until" ∷ []) ∷ [])

abbrev pub end_switch : Cursor → Bool
end_switch = at_end (codes "switch")

abbrev pub before_end_switch : Text
before_end_switch =
    codes "reached end of file while looking for \"End switch.\" to close this block"

abbrev pub line_of : Expr → ℕ
line_of (Expr.int_lit p _) = p.line
line_of (Expr.bool_lit p _) = p.line
line_of (Expr.float_lit p _) = p.line
line_of (Expr.string_lit p _) = p.line
line_of (Expr.nullptr_lit p) = p.line
line_of (Expr.var_ref p _) = p.line
line_of (Expr.length_expr p _) = p.line
line_of (Expr.size_of_type p _) = p.line
line_of (Expr.size_of p _) = p.line
line_of (Expr.align_of_type p _) = p.line
line_of (Expr.limit_of_type p _ _) = p.line
line_of (Expr.offset_of p _ _) = p.line
line_of (Expr.lock_free p _) = p.line
line_of (Expr.atomic_exchange p _ _) = p.line
line_of (Expr.atomic_rmw p _ _ _) = p.line
line_of (Expr.address_of p _) = p.line
line_of (Expr.deref p _) = p.line
line_of (Expr.cast p _ _) = p.line
line_of (Expr.inc_dec p _ _) = p.line
line_of (Expr.conditional p _ _ _) = p.line
line_of (Expr.compound_literal p _ _) = p.line
line_of (Expr.generic_selection p _ _ _) = p.line
line_of (Expr.element p _ _) = p.line
line_of (Expr.member p _ _) = p.line
line_of (Expr.enumerator p _ _) = p.line
line_of (Expr.math_call p _ _) = p.line
line_of (Expr.call p _ _) = p.line
line_of (Expr.indirect_call p _ _) = p.line
line_of (Expr.pow p _ _) = p.line
line_of (Expr.binary p _ _ _) = p.line
line_of (Expr.unary p _ _) = p.line
line_of (Expr.list_expr p _) = p.line
line_of (Expr.empty_list p _) = p.line
line_of (Expr.item p _ _) = p.line
line_of (Expr.va_arg p _ _) = p.line

-- The negation that Unless and Until put around their condition.
unfoldable pub negated : Bool → Expr → Parser Expr
unfolding make_expr
negated true cond = make_expr (λ p. Expr.unary p UnaryOp.not cond) (line_of cond)
negated false cond = pure cond

abbrev pub has_no_cases : Cases → Bool
has_no_cases Cases.no_cases = true
has_no_cases (Cases.a_case value body rest) = false
