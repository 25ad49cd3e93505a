-- ===== src/Parser/Statements/Program.antt =====
-- src/parser/parser.cpp: parseStmt, parseTopLevelStmt and parseProgram. A statement in a block spends
-- a unit of fuel, and the loop over the statements of the program one for each of them.
use Prim.Native.String.{String}
use plainspeak.Prelude.{
  ℕ, zero, suc, ◌+◌, ◌*◌, Bool, true, false, not, Text, codes, List, [], ◌∷◌, ◌++◌, map,
}
use plainspeak.Ast.{PlainStmt, Stmt, Stmts}
use plainspeak.Lexer.Tokenize.{TokKind}
use plainspeak.Lexer.Keywords.{
  is_say_keyword, is_set_keyword, is_declare_keyword, is_add_keyword, is_subtract_keyword,
  is_increase_keyword, is_decrease_keyword, is_append_keyword, is_return_keyword, is_unless_keyword,
  is_until_keyword,
}
use plainspeak.Parser.{
  Parser, out_of_fuel, pure, ◌>>=◌, peek, kind_at, error, advance, line_here, remaining, when,
}
use plainspeak.Parser.Table.{one_of, keyword, Rule, choose, words, Rules}
use plainspeak.Parser.Grammar.{rules}
use plainspeak.Parser.Statements.{make_stmt, end_plain, sentence, verb, at_eof}
use plainspeak.Parser.Statements.Simple.{
  end_stmt, parse_goto, parse_label, parse_warning, parse_name, parse_name_after, parse_say,
  parse_set, parse_onto, parse_by, parse_replace_item, parse_remove_item, parse_return, parse_call,
  parse_static_assert, parse_runtime_assert,
}
use plainspeak.Parser.Statements.Imports.{parse_c_import}
use plainspeak.Parser.Statements.Declarations.{
  parse_declare, parse_structure, parse_enumeration, parse_type_alias,
}
use plainspeak.Parser.Statements.Blocks.{
  parse_repeat, parse_conditional, parse_loop, parse_do_while, parse_for_each, parse_for,
  parse_switch, parse_compile_if, parse_procedure,
}

unfoldable pub parse_comment : Parser Stmt
unfolding line_here advance make_stmt
parse_comment = do
  line ← line_here
  t ← advance
  make_stmt (λ p. Stmt.plain p (PlainStmt.comment t.text)) line

abbrev pub by_keyword : (Text → Bool) → (ℕ → Parser Stmt) → Rule Stmt
by_keyword f rest = sentence (keyword f ∷ []) 1 rest

abbrev pub one_word_of : List String → (ℕ → Parser Stmt) → Rule Stmt
one_word_of ss rest = sentence (one_of (map codes ss) ∷ []) 1 rest

-- The words are asked for, and the first n of them advanced over.
abbrev pub verb_of : List String → ℕ → (ℕ → Parser Stmt) → Rule Stmt
verb_of ss n rest = sentence (words ss) n rest

-- The branches for starting and finishing variadic arguments.
abbrev pub variadic_rules : List (Rule Stmt) → List (Rule Stmt)
variadic_rules rest =
    verb ("start" ∷ "variadic" ∷ "arguments" ∷ [])
      (parse_name_after (codes "after") PlainStmt.va_start)
    ∷ verb ("copy" ∷ "variadic" ∷ "arguments" ∷ [])
        (parse_name_after (codes "to") PlainStmt.va_copy)
    ∷ verb ("finish" ∷ "variadic" ∷ "arguments" ∷ "copy" ∷ []) (parse_name PlainStmt.va_copy_end)
    ∷ verb ("finish" ∷ "variadic" ∷ "arguments" ∷ []) (end_plain PlainStmt.va_end)
    ∷ rest

module _ (g : Rules) (stmt : Parser Stmt) where
  -- The branches from "repeat" to "assert", which blocks and the top level have in common.
  abbrev pub block_rules : List (Rule Stmt) → List (Rule Stmt)
  block_rules rest =
      verb ("repeat" ∷ []) (parse_repeat g stmt)
      ∷ by_keyword is_unless_keyword (parse_conditional g stmt true)
      ∷ verb ("if" ∷ []) (parse_conditional g stmt false)
      ∷ verb ("compile" ∷ "if" ∷ []) (parse_compile_if g stmt)
      ∷ by_keyword is_until_keyword (parse_loop g stmt true)
      ∷ verb ("while" ∷ []) (parse_loop g stmt false)
      ∷ verb ("do" ∷ []) (parse_do_while g stmt)
      ∷ verb_of ("for" ∷ "each" ∷ []) 1 (parse_for_each g stmt)
      ∷ verb ("for" ∷ []) (parse_for g stmt)
      ∷ verb ("switch" ∷ []) (parse_switch g stmt)
      ∷ verb ("go" ∷ []) parse_goto
      ∷ verb ("label" ∷ []) parse_label
      ∷ verb ("call" ∷ []) (parse_call g)
      ∷ verb ("procedure" ∷ []) (parse_procedure g stmt)
      ∷ by_keyword is_return_keyword (parse_return g)
      ∷ verb_of ("assert" ∷ "that" ∷ []) 1 (parse_static_assert g)
      ∷ verb ("assert" ∷ []) (parse_runtime_assert g)
      ∷ rest

  -- The branches from the additions to "continue".
  abbrev pub plain_rules : List (Rule Stmt) → List (Rule Stmt)
  plain_rules rest =
      by_keyword is_add_keyword (parse_onto g (codes "to") PlainStmt.add_stmt)
      ∷ by_keyword is_subtract_keyword (parse_onto g (codes "from") PlainStmt.sub_stmt)
      ∷ by_keyword is_increase_keyword (parse_by g PlainStmt.add_stmt)
      ∷ by_keyword is_decrease_keyword (parse_by g PlainStmt.sub_stmt)
      ∷ verb ("readfloat" ∷ []) (parse_name PlainStmt.read_float)
      ∷ verb ("read" ∷ []) (parse_name PlainStmt.read_stmt)
      ∷ by_keyword is_append_keyword (parse_onto g (codes "to") PlainStmt.append_stmt)
      ∷ verb ("replace" ∷ []) (parse_replace_item g)
      ∷ verb ("remove" ∷ []) (parse_remove_item g)
      ∷ one_word_of ("warn" ∷ "warning" ∷ []) parse_warning
      ∷ verb ("break" ∷ []) (end_stmt Stmt.break_stmt)
      ∷ verb ("continue" ∷ []) (end_stmt Stmt.continue_stmt)
      ∷ rest

  abbrev pub first_rules : List (Rule Stmt) → List (Rule Stmt)
  first_rules rest =
      by_keyword is_say_keyword (parse_say g)
      ∷ by_keyword is_set_keyword (parse_set g)
      ∷ by_keyword is_declare_keyword (parse_declare g)
      ∷ rest

  -- The branches that only parseTopLevelStmt has: the definitions of types.
  abbrev pub type_rules : List (Rule Stmt) → List (Rule Stmt)
  type_rules rest =
      verb ("structure" ∷ []) (parse_structure g (codes "structure") PlainStmt.structure_stmt)
      ∷ verb ("union" ∷ []) (parse_structure g (codes "union") PlainStmt.union_stmt)
      ∷ verb ("enumeration" ∷ []) parse_enumeration
      ∷ verb ("define" ∷ []) (parse_type_alias g)
      ∷ rest

  -- The branches that only parseTopLevelStmt has: the fence and the atomic store.
  abbrev pub atomic_rules : List (Rule Stmt) → List (Rule Stmt)
  atomic_rules rest =
      verb ("atomic" ∷ "fence" ∷ []) (end_plain PlainStmt.atomic_fence)
      ∷ verb ("atomic" ∷ "store" ∷ [])
          (parse_onto g (codes "to") (λ e name. PlainStmt.atomic_store name e))
      ∷ rest

  -- The branches that only parseTopLevelStmt has: the imports.
  abbrev pub import_rules : List (Rule Stmt) → List (Rule Stmt)
  import_rules rest =
      verb_of ("import" ∷ "c" ∷ []) 1 (parse_c_import g)
      ∷ verb_of ("import" ∷ "the" ∷ "c" ∷ []) 1 (parse_c_import g)
      ∷ rest

  unfoldable pub stmt_rules : List (Rule Stmt)
  unfolding parse_repeat parse_conditional parse_loop parse_do_while parse_for_each parse_for
      parse_switch parse_compile_if parse_procedure parse_goto parse_label parse_warning parse_name
      parse_name_after parse_say parse_set parse_onto parse_by parse_replace_item parse_remove_item
      parse_return parse_call parse_static_assert parse_runtime_assert parse_declare
  stmt_rules = first_rules (plain_rules (block_rules (variadic_rules [])))

  unfoldable pub top_level_rules : List (Rule Stmt)
  unfolding parse_repeat parse_conditional parse_loop parse_do_while parse_for_each parse_for
      parse_switch parse_compile_if parse_procedure parse_goto parse_label parse_warning parse_name
      parse_name_after parse_say parse_set parse_onto parse_by parse_replace_item parse_remove_item
      parse_return parse_call parse_static_assert parse_runtime_assert parse_declare parse_structure
      parse_enumeration parse_type_alias parse_c_import
  top_level_rules = first_rules (
      type_rules (
        plain_rules (block_rules (atomic_rules (variadic_rules (import_rules (atomic_rules [])))))))

-- The character U+2014 in UTF-8.
abbrev pub em_dash : Text
em_dash = 226 ∷ 128 ∷ 148 ∷ []

-- A comment, or the sentence that the rules choose by its verb.
unfoldable pub parse_verb : List (Rule Stmt) → Text → Text → Parser Stmt
unfolding kind_at peek error choose parse_comment
parse_verb rs expected verbs = when (kind_at 0 TokKind.comment) parse_comment (
    when (λ c. not (kind_at 0 TokKind.ident c)) (error expected)
      (choose rs (λ c.
        error
          (codes "I don't know the verb \""
            ++ (peek c 0).text
            ++ codes "\" "
            ++ em_dash
            ++ codes " expected one of: "
            ++ verbs)
          c)))

abbrev pub expected_sentence : Text
expected_sentence =
    codes
      "expected a sentence starting with a verb (Say, Set, Declare, Add, Append, Repeat, If, Unless, While, Until, For, Call)"

abbrev pub expected_top_level : Text
expected_top_level =
    codes
      "expected a sentence starting with a verb (Say, Set, Declare, Add, Append, Repeat, If, Unless, While, Until, For, Call, Procedure)"

abbrev pub verbs_of_blocks : Text
verbs_of_blocks =
    codes
      "say/set/let/make, declare/create, add, subtract, increase, decrease, read, append, replace, remove, break, continue, repeat, if/unless, while/until, do, for, switch, go, label, call, procedure, return (see docs/grammar.md)"

abbrev pub verbs_of_program : Text
verbs_of_program =
    codes
      "say/set/let/make, declare/create, add, subtract, increase, decrease, read, append, replace, remove, warn, break, continue, repeat, if/unless, while/until, do, for, switch, go, label, call, procedure, return (see docs/grammar.md)"

module _ (g : Rules) where
  unfoldable pub parse_stmt : ℕ → Parser Stmt
  unfolding parse_verb stmt_rules
  parse_stmt zero = λ c. out_of_fuel
  parse_stmt (suc n) =
      let stmt : Parser Stmt = parse_stmt n in
      parse_verb (stmt_rules g stmt) expected_sentence verbs_of_blocks

  unfoldable pub parse_top_level_stmt : ℕ → Parser Stmt
  unfolding parse_verb top_level_rules parse_stmt
  parse_top_level_stmt n =
      parse_verb (top_level_rules g (parse_stmt n)) expected_top_level verbs_of_program

  -- while (not Eof) stmts.push_back(parseTopLevelStmt());
  unfoldable pub parse_all : Parser Stmt → ℕ → Parser Stmts
  unfolding kind_at
  parse_all top zero = λ c. out_of_fuel
  parse_all top (suc n) =
      let more : Parser Stmts = parse_all top n in
      when at_eof (pure Stmts.done) (top >>= λ s. more >>= λ rest. pure (Stmts.then_stmt s rest))

unfoldable pub parse_program : Parser Stmts
unfolding rules parse_top_level_stmt parse_all
parse_program c =
    let n : ℕ = remaining c in
    parse_all (rules (2 * n + 2)) (parse_top_level_stmt (rules (2 * n + 2)) (suc n)) (suc n) c
