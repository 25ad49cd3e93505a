-- ===== src/Parser/Progress/Statements/Simple.antt =====
-- The statements of src/parser/parser.cpp that hold no block put no token back.
use plainspeak.Prelude.{ℕ, suc, Text, true}
use plainspeak.Ast.{Place, Expr, PlainStmt, Stmt}
use plainspeak.Parser.{remaining}
use plainspeak.Parser.Table.{Rules}
use plainspeak.Parser.Primary.{parse_items, parse_arguments}
use plainspeak.Parser.Statements.{end_plain}
use plainspeak.Parser.Statements.Simple.{
  end_stmt, parse_by, parse_call, parse_goto, parse_label, parse_name, parse_name_after, parse_onto,
  parse_remove_item, parse_replace_item, parse_return, parse_runtime_assert, parse_say, parse_set,
  parse_static_assert, parse_warning,
}
use plainspeak.Parser.Progress.{Keeps}
use plainspeak.Parser.Progress.Rules.{Sound, Keeps-expr, Keeps-primary}
use plainspeak.Parser.Progress.Rules.Primary.{items_keep, arguments_keep}
use plainspeak.Parser.Progress.Statements.{stmt_keeps}

module _ {m : ℕ} where
  pub end_plain-Keeps : (s : PlainStmt) (line : ℕ) → Keeps m (end_plain s line)
  end_plain-Keeps s line = search stmt_keeps depth 12

  pub end_stmt-Keeps : (node : Place → Stmt) (line : ℕ) → Keeps m (end_stmt node line)
  end_stmt-Keeps node line = search stmt_keeps depth 12

  pub parse_goto-Keeps : (line : ℕ) → Keeps m (parse_goto line)
  unfolding parse_goto
  parse_goto-Keeps line = search stmt_keeps depth 14

  pub parse_label-Keeps : (line : ℕ) → Keeps m (parse_label line)
  unfolding parse_label
  parse_label-Keeps line = search stmt_keeps depth 14

  pub parse_warning-Keeps : (line : ℕ) → Keeps m (parse_warning line)
  unfolding parse_warning
  parse_warning-Keeps line = search stmt_keeps depth 14

  pub parse_name-Keeps : (node : Text → PlainStmt) (line : ℕ) → Keeps m (parse_name node line)
  unfolding parse_name
  parse_name-Keeps node line = search stmt_keeps depth 14

  pub parse_name_after-Keeps :
      (word : Text) (node : Text → PlainStmt) (line : ℕ) → Keeps m (parse_name_after word node line)
  unfolding parse_name_after
  parse_name_after-Keeps word node line = search stmt_keeps depth 14

module _ {m : ℕ} (g : Rules) (sound : Sound m g) where
  exprs_stay : Keeps m g.expr
  exprs_stay = Keeps-expr sound

  primaries_stay : Keeps m g.primary
  primaries_stay = Keeps-primary sound

  items_stay : Keeps m (λ c. parse_items g (suc (remaining c)) c)
  items_stay = items_keep g sound

  arguments_stay : Keeps m (λ c. parse_arguments g true (suc (remaining c)) c)
  arguments_stay = arguments_keep g sound true

  ruleset stayers = (stmt_keeps, exprs_stay, primaries_stay, items_stay, arguments_stay)

  pub parse_say-Keeps : (line : ℕ) → Keeps m (parse_say g line)
  unfolding parse_say
  parse_say-Keeps line = search stayers depth 14

  pub parse_set-Keeps : (line : ℕ) → Keeps m (parse_set g line)
  unfolding parse_set
  parse_set-Keeps line = search stayers depth 20

  pub parse_onto-Keeps :
      (word : Text) (node : Expr → Text → PlainStmt) (line : ℕ)
      → Keeps m (parse_onto g word node line)
  unfolding parse_onto
  parse_onto-Keeps word node line = search stayers depth 14

  pub parse_by-Keeps : (node : Expr → Text → PlainStmt) (line : ℕ) → Keeps m (parse_by g node line)
  unfolding parse_by
  parse_by-Keeps node line = search stayers depth 14

  pub parse_replace_item-Keeps : (line : ℕ) → Keeps m (parse_replace_item g line)
  unfolding parse_replace_item
  parse_replace_item-Keeps line = search stayers depth 20

  pub parse_remove_item-Keeps : (line : ℕ) → Keeps m (parse_remove_item g line)
  unfolding parse_remove_item
  parse_remove_item-Keeps line = search stayers depth 20

  pub parse_return-Keeps : (line : ℕ) → Keeps m (parse_return g line)
  unfolding parse_return
  parse_return-Keeps line = search stayers depth 20

  pub parse_call-Keeps : (line : ℕ) → Keeps m (parse_call g line)
  unfolding parse_call
  parse_call-Keeps line = search stayers depth 20

  pub parse_static_assert-Keeps : (line : ℕ) → Keeps m (parse_static_assert g line)
  unfolding parse_static_assert
  parse_static_assert-Keeps line = search stayers depth 20

  pub parse_runtime_assert-Keeps : (line : ℕ) → Keeps m (parse_runtime_assert g line)
  unfolding parse_runtime_assert
  parse_runtime_assert-Keeps line = search stayers depth 20
