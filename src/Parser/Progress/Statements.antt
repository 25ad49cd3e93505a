-- ===== src/Parser/Progress/Statements.antt =====
-- The rules of src/parser/parser.cpp for statements take a token, where those that they call do.
pub mod Simple
pub mod Imports
pub mod Declarations
pub mod Procedures
pub mod Blocks
pub mod Program
pub mod End
use plainspeak.Prelude.{
  ℕ, zero, suc, ◌≤◌, ◌<◌, ◌≡◌, refl, Bool, true, false, Text, codes, arith, if◌then◌else◌, inl, inr,
  List, [], ◌∷◌,
}
use plainspeak.Ast.{Place, Stmt}
use plainspeak.Lexer.Tokenize.{TokKind}
use plainspeak.Parser.{
  Cursor, Parser, ◌>>=◌, pure, advance, check_word, kind_at, error, expect_word, expect_dot,
  expect_colon, expect_ident_name, remaining, when,
}
use plainspeak.Parser.Table.{Ask}
use plainspeak.Parser.Statements.{make_stmt, sentence}
use plainspeak.Parser.Progress.{
  Ended, Within, on_parsed, on_failed, Keeps, Takes, Keeps-pure, Keeps-error, Keeps-advance, Inside,
  Inside-of_kind,
}
use plainspeak.Parser.Progress.Steps.{
  keeps_rules, Keeps-if, Begins, Begins-advance, Begins-bind, Begins-expect_ident_name,
  Begins-line_here, Begins-advance_all, check_word-Inside, Fits, starts,
}

module _ {m : ℕ} where
  pub Keeps-expect_dot : Keeps m expect_dot
  unfolding expect_dot
  Keeps-expect_dot = Keeps-if _ _ _ Keeps-advance (Keeps-error _)

  pub Keeps-expect_colon : Keeps m expect_colon
  unfolding expect_colon
  Keeps-expect_colon = Keeps-if _ _ _ Keeps-advance (Keeps-error _)

  pub Keeps-make_stmt : (node : Place → Stmt) (line : ℕ) → Keeps m (make_stmt node line)
  unfolding make_stmt
  Keeps-make_stmt node line = record {
    at = λ c e h. on_parsed (record { eof_last = e.eof_last }) (omega arith);
  }

pub ruleset stmt_keeps = (keeps_rules, Keeps-expect_dot, Keeps-expect_colon, Keeps-make_stmt)

module _ {m : ℕ} where
  -- A token that is tested for, or an error.
  Takes-if :
      {A : Type 0} (test : Cursor → Bool) (p q : Parser A)
      → ((c : Cursor) → Ended c → test c ≡ true → Inside c)
      → Begins m p
      → Takes m q
      → Takes m (λ c. if test c then p c else q c)
  Takes-if {A = A} test p q i bp tq = record { at = λ c e h. by_case c (test c) refl e h }
    where
      by_case :
          (c : Cursor) (b : Bool)
          → test c ≡ b
          → Ended c
          → remaining c ≤ m
          → Within (remaining c) (if b then p c else q c)
      by_case c true x e h = bp.at c e (i c e x) h
      by_case c false x e h = tq.at c e h

  pub failing-Takes :
      {A : Type 0} (message : Cursor → Text) → Takes m (λ c. error {A = A} (message c) c)
  unfolding error
  failing-Takes message = record { at = λ c e h. on_failed }

  pub Takes-expect_word : (word : Text) → Takes m (expect_word word)
  unfolding expect_word
  Takes-expect_word word =
      Takes-if (check_word word) _ _ (check_word-Inside word) Begins-advance (failing-Takes _)

  pub Takes-expect_ident_name : Takes m expect_ident_name
  unfolding expect_ident_name
  Takes-expect_ident_name =
      Takes-if (λ c. kind_at 0 TokKind.ident c) _ _
        (λ c e x. Inside-of_kind c TokKind.ident e refl x)
        (Begins-bind _ _ Begins-advance λ t. Keeps-pure t.text) (failing-Takes _)

  pub Takes-either :
      {A : Type 0} (test : Cursor → Bool) (p q : Parser A)
      → Takes m p
      → Takes m q
      → Takes m (when test p q)
  unfolding when
  Takes-either {A = A} test p q tp tq = record { at = λ c e h. by_case c (test c) e h }
    where
      by_case :
          (c : Cursor) (b : Bool)
          → Ended c
          → remaining c ≤ m
          → Within (remaining c) (elim b [ true ↦ p c | false ↦ q c ])
      by_case c true e h = tp.at c e h
      by_case c false e h = tq.at c e h

  pub sentence-Fits :
      (guard : List Ask) (n : ℕ) (rest : ℕ → Parser Stmt)
      → starts guard ≡ true
      → ((line : ℕ) → Keeps m (rest line))
      → Fits m (sentence guard (suc n) rest)
  sentence-Fits guard n rest s k = record {
    asks_first = s;
    begins = Begins-line_here _ λ line. Begins-bind _ _ (Begins-advance_all n) λ _. k line;
  }
