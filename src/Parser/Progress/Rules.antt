-- ===== src/Parser/Progress/Rules.antt =====
-- The rules of src/parser/parser.cpp for types and initializers take a token, where those that they
-- call do.
pub mod Types
pub mod Aggregates
pub mod Primary
use plainspeak.Prelude.{ℕ, suc, ◌≤◌, arith}
use plainspeak.Parser.Table.{Rules}
use plainspeak.Parser.Progress.{Keeps, Takes, Keeps-below}

-- With fewer than m tokens remaining, each of the rules takes one.
pub record Sound (m : ℕ) (g : Rules) : Type 0 where
  pub expr_takes : (k : ℕ) → suc k ≤ m → Takes k g.expr
  pub primary_takes : (k : ℕ) → suc k ≤ m → Takes k g.primary
  pub type_takes : (k : ℕ) → suc k ≤ m → Takes k g.type_spec
  pub block_takes : (k : ℕ) → suc k ≤ m → Takes k g.aggregate_block

module _ {m : ℕ} {g : Rules} (sound : Sound m g) where
  pub Keeps-expr : Keeps m g.expr
  Keeps-expr = Keeps-below m _ λ k e. sound.expr_takes k (omega arith)

  pub Keeps-primary : Keeps m g.primary
  Keeps-primary = Keeps-below m _ λ k e. sound.primary_takes k (omega arith)

  pub Keeps-type_spec : Keeps m g.type_spec
  Keeps-type_spec = Keeps-below m _ λ k e. sound.type_takes k (omega arith)

  pub Keeps-aggregate_block : Keeps m g.aggregate_block
  Keeps-aggregate_block = Keeps-below m _ λ k e. sound.block_takes k (omega arith)

  -- The same with fewer tokens.
  pub Sound-less : (k : ℕ) → k ≤ m → Sound k g
  Sound-less k le = record {
    expr_takes = λ j b. sound.expr_takes j (omega arith);
    primary_takes = λ j b. sound.primary_takes j (omega arith);
    type_takes = λ j b. sound.type_takes j (omega arith);
    block_takes = λ j b. sound.block_takes j (omega arith);
  }
