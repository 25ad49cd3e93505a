-- ===== src/Parser/Progress/Statements/Program.antt =====
-- parseProgram of src/parser/parser.cpp ends on every sequence of tokens.
use plainspeak.Prelude.{ℕ, zero, suc, ◌+◌, ◌*◌, ◌≤◌, refl, true, false, Text, List, arith}
use plainspeak.Ast.{PlainStmt, Stmt}
use plainspeak.Lexer.Tokenize.{TokKind}
use plainspeak.Parser.{Cursor, Parser, remaining, kind_at}
use plainspeak.Parser.Table.{Rule, Rules}
use plainspeak.Parser.Grammar.{rules}
use plainspeak.Parser.Statements.Program.{
  parse_comment, variadic_rules, block_rules, plain_rules, first_rules, type_rules, atomic_rules,
  import_rules, stmt_rules, top_level_rules, parse_verb, parse_stmt, parse_top_level_stmt,
  parse_all, parse_program,
}
use plainspeak.Parser.Progress.{
  Ended, Within, Keeps, Takes, Inside-of_kind, Keeps-no_tokens, Keeps-pure, Keeps-bind, Keeps-when,
  Keeps-bind_taking,
}
use plainspeak.Parser.Progress.Steps.{
  Begins, Begins-advance, Begins-bind, Begins-line_here, Takes-when, Takes-error, choose-Takes_or,
  AllFit, none_left, ◌&◌,
}
use plainspeak.Parser.Progress.Rules.{Sound, Sound-less}
use plainspeak.Parser.Progress.Correct.{rules-Sound}
use plainspeak.Parser.Progress.Statements.{
  Keeps-make_stmt, Takes-either, sentence-Fits, failing-Takes,
}
use plainspeak.Parser.Progress.Statements.Simple.{
  end_plain-Keeps, end_stmt-Keeps, parse_goto-Keeps, parse_label-Keeps, parse_warning-Keeps,
  parse_name-Keeps, parse_name_after-Keeps, parse_say-Keeps, parse_set-Keeps, parse_onto-Keeps,
  parse_by-Keeps, parse_replace_item-Keeps, parse_remove_item-Keeps, parse_return-Keeps,
  parse_call-Keeps, parse_static_assert-Keeps, parse_runtime_assert-Keeps,
}
use plainspeak.Parser.Progress.Statements.Imports.{parse_c_import-Keeps}
use plainspeak.Parser.Progress.Statements.Declarations.{
  parse_declare-Keeps, parse_structure-Keeps, parse_enumeration-Keeps, parse_type_alias-Keeps,
}
use plainspeak.Parser.Progress.Statements.Blocks.{
  Statements, parse_repeat-Keeps, parse_conditional-Keeps, parse_loop-Keeps, parse_do_while-Keeps,
  parse_for_each-Keeps, parse_for-Keeps, parse_switch-Keeps, parse_compile_if-Keeps,
  parse_procedure-Keeps,
}

parse_comment-Begins : {m : ℕ} → Begins m parse_comment
unfolding parse_comment
parse_comment-Begins = Begins-line_here _ λ line.
    Begins-bind _ _ Begins-advance
      λ t. Keeps-make_stmt (λ p. Stmt.plain p (PlainStmt.comment t.text)) line

parse_verb-Takes :
    {m : ℕ} (rs : List (Rule Stmt)) (expected verbs : Text)
    → AllFit m rs
    → Takes m (parse_verb rs expected verbs)
unfolding parse_verb
parse_verb-Takes rs expected verbs fits =
    Takes-when (λ c. kind_at 0 TokKind.comment c) _ _
      (λ c e h. Inside-of_kind c TokKind.comment e refl h) parse_comment-Begins
      (Takes-either _ _ _ (Takes-error _ _) (choose-Takes_or _ rs _ fits (failing-Takes _)))

variadic_rules-AllFit :
    {m : ℕ} (rest : List (Rule Stmt)) → AllFit m rest → AllFit m (variadic_rules rest)
variadic_rules-AllFit rest fits =
    sentence-Fits _ 2 _ refl (parse_name_after-Keeps _ _)
    & sentence-Fits _ 2 _ refl (parse_name_after-Keeps _ _)
    & sentence-Fits _ 3 _ refl (parse_name-Keeps _)
    & sentence-Fits _ 2 _ refl (end_plain-Keeps _)
    & fits

module _ {m : ℕ} (g : Rules) (stmt : Parser Stmt) (sound : Sound m g) (s : Statements m stmt) where
  block_rules-AllFit :
      (rest : List (Rule Stmt)) → AllFit m rest → AllFit m (block_rules g stmt rest)
  block_rules-AllFit rest fits =
      sentence-Fits _ 0 _ refl (parse_repeat-Keeps g stmt sound s)
      & sentence-Fits _ 0 _ refl (parse_conditional-Keeps g stmt sound s true)
      & sentence-Fits _ 0 _ refl (parse_conditional-Keeps g stmt sound s false)
      & sentence-Fits _ 1 _ refl (parse_compile_if-Keeps g stmt sound s)
      & sentence-Fits _ 0 _ refl (parse_loop-Keeps g stmt sound s true)
      & sentence-Fits _ 0 _ refl (parse_loop-Keeps g stmt sound s false)
      & sentence-Fits _ 0 _ refl (parse_do_while-Keeps g stmt sound s)
      & sentence-Fits _ 0 _ refl (parse_for_each-Keeps g stmt sound s)
      & sentence-Fits _ 0 _ refl (parse_for-Keeps g stmt sound s)
      & sentence-Fits _ 0 _ refl (parse_switch-Keeps g stmt sound s)
      & sentence-Fits _ 0 _ refl parse_goto-Keeps
      & sentence-Fits _ 0 _ refl parse_label-Keeps
      & sentence-Fits _ 0 _ refl (parse_call-Keeps g sound)
      & sentence-Fits _ 0 _ refl (parse_procedure-Keeps g stmt sound s)
      & sentence-Fits _ 0 _ refl (parse_return-Keeps g sound)
      & sentence-Fits _ 0 _ refl (parse_static_assert-Keeps g sound)
      & sentence-Fits _ 0 _ refl (parse_runtime_assert-Keeps g sound)
      & fits

  plain_rules-AllFit :
      (rest : List (Rule Stmt)) → AllFit m rest → AllFit m (plain_rules g stmt rest)
  plain_rules-AllFit rest fits =
      sentence-Fits _ 0 _ refl (parse_onto-Keeps g sound _ _)
      & sentence-Fits _ 0 _ refl (parse_onto-Keeps g sound _ _)
      & sentence-Fits _ 0 _ refl (parse_by-Keeps g sound _)
      & sentence-Fits _ 0 _ refl (parse_by-Keeps g sound _)
      & sentence-Fits _ 0 _ refl (parse_name-Keeps _)
      & sentence-Fits _ 0 _ refl (parse_name-Keeps _)
      & sentence-Fits _ 0 _ refl (parse_onto-Keeps g sound _ _)
      & sentence-Fits _ 0 _ refl (parse_replace_item-Keeps g sound)
      & sentence-Fits _ 0 _ refl (parse_remove_item-Keeps g sound)
      & sentence-Fits _ 0 _ refl parse_warning-Keeps
      & sentence-Fits _ 0 _ refl (end_stmt-Keeps _)
      & sentence-Fits _ 0 _ refl (end_stmt-Keeps _)
      & fits

  first_rules-AllFit :
      (rest : List (Rule Stmt)) → AllFit m rest → AllFit m (first_rules g stmt rest)
  first_rules-AllFit rest fits =
      sentence-Fits _ 0 _ refl (parse_say-Keeps g sound)
      & sentence-Fits _ 0 _ refl (parse_set-Keeps g sound)
      & sentence-Fits _ 0 _ refl (parse_declare-Keeps g sound)
      & fits

  type_rules-AllFit : (rest : List (Rule Stmt)) → AllFit m rest → AllFit m (type_rules g stmt rest)
  type_rules-AllFit rest fits =
      sentence-Fits _ 0 _ refl (parse_structure-Keeps g sound _ _)
      & sentence-Fits _ 0 _ refl (parse_structure-Keeps g sound _ _)
      & sentence-Fits _ 0 _ refl parse_enumeration-Keeps
      & sentence-Fits _ 0 _ refl (parse_type_alias-Keeps g sound)
      & fits

  atomic_rules-AllFit :
      (rest : List (Rule Stmt)) → AllFit m rest → AllFit m (atomic_rules g stmt rest)
  atomic_rules-AllFit rest fits =
      sentence-Fits _ 1 _ refl (end_plain-Keeps _)
      & sentence-Fits _ 1 _ refl (parse_onto-Keeps g sound _ _)
      & fits

  import_rules-AllFit :
      (rest : List (Rule Stmt)) → AllFit m rest → AllFit m (import_rules g stmt rest)
  import_rules-AllFit rest fits =
      sentence-Fits _ 0 _ refl (parse_c_import-Keeps g sound)
      & sentence-Fits _ 0 _ refl (parse_c_import-Keeps g sound)
      & fits

  stmt_rules-AllFit : AllFit m (stmt_rules g stmt)
  unfolding stmt_rules
  stmt_rules-AllFit =
      first_rules-AllFit _
        (plain_rules-AllFit _ (block_rules-AllFit _ (variadic_rules-AllFit _ none_left)))

  top_level_rules-AllFit : AllFit m (top_level_rules g stmt)
  unfolding top_level_rules
  top_level_rules-AllFit = first_rules-AllFit _ (
      type_rules-AllFit _ (
        plain_rules-AllFit _ (
          block_rules-AllFit _ (
            atomic_rules-AllFit _ (
              variadic_rules-AllFit _ (import_rules-AllFit _ (atomic_rules-AllFit _ none_left)))))))

module _ (g : Rules) where
  parse_stmt-Takes : (n m : ℕ) → suc m ≤ n → Sound m g → Takes m (parse_stmt g n)
  unfolding parse_stmt
  parse_stmt-Takes zero m b s = absurd (omega arith)
  parse_stmt-Takes (suc n) m b s = parse_verb-Takes _ _ _ (
      stmt_rules-AllFit g (parse_stmt g n) s
        λ k h. parse_stmt-Takes n k (omega arith) (Sound-less s k (omega arith)))

  parse_top_level_stmt-Takes : (n m : ℕ) → m ≤ n → Sound m g → Takes m (parse_top_level_stmt g n)
  unfolding parse_top_level_stmt
  parse_top_level_stmt-Takes n m b s = parse_verb-Takes _ _ _ (
      top_level_rules-AllFit g (parse_stmt g n) s
        λ k h. parse_stmt-Takes n k (omega arith) (Sound-less s k (omega arith)))

  parse_all-Keeps :
      (top : Parser Stmt) (n m : ℕ) → m ≤ n → Statements m top → Keeps m (parse_all g top n)
  unfolding parse_all
  parse_all-Keeps top zero m b s = Keeps-no_tokens _ b
  parse_all-Keeps top (suc n) m b s = Keeps-when _ _ _ (Keeps-pure _) (
      Keeps-bind_taking _ _ s λ k t h.
        Keeps-bind _ _ (parse_all-Keeps top n k (omega arith) λ j le. s j (omega arith))
          λ rest. Keeps-pure _)

pub parse_program-Within : (c : Cursor) → Ended c → Within (suc (remaining c)) (parse_program c)
unfolding parse_program
parse_program-Within c e =
    let m : ℕ = remaining c in
    let g : Rules = rules (2 * m + 2) in
    (parse_all-Keeps g (parse_top_level_stmt g (suc m)) (suc m) (suc m) (omega arith) λ k h.
        parse_top_level_stmt-Takes g (suc m) k (omega arith)
          (rules-Sound (2 * m + 2) k (omega arith))).at
      c e (omega arith)
