-- ===== src/Parser/Table.antt =====
-- The chains of `if (checkWord(...) && ...) { ...; return ...; }` of src/parser/parser.cpp, as lists
-- of rules that are tried in order.
use Prim.Native.String.{String}
use plainspeak.Prelude.{ℕ, suc, Bool, true, false, ◌&&◌, Text, codes, List, [], ◌∷◌, any, length}
use plainspeak.Ast.{Expr, TypeSpec, AggregateInitializer}
use plainspeak.Lexer.Tokenize.{TokKind}
use plainspeak.Parser.{Cursor, Parser, check_word_at, kind_at, peek, advance_all, ◌>>◌}

-- What a token is asked to be: one of some words, of a kind, or a word that is a keyword.
pub data Ask : Type 0 where
  one_of : List Text → Ask
  of_kind : TokKind → Ask
  keyword : (Text → Bool) → Ask

abbrev pub asks : ℕ → Ask → Cursor → Bool
asks n (one_of ws) c = any (λ w. check_word_at n w c) ws
asks n (of_kind k) c = kind_at n k c
asks n (keyword f) c = kind_at n TokKind.ident c && f (peek c n).text

abbrev pub all_ask : ℕ → List Ask → Cursor → Bool
all_ask n [] c = true
all_ask n (a ∷ as') c = asks n a c && all_ask (suc n) as' c

pub record Rule (A : Type 0) : Type 0 where
  pub guard : List Ask
  pub action : Parser A

-- The first rule whose guard holds, or else the last resort.
unfoldable pub choose : {A : Type 0} → List (Rule A) → Parser A → Parser A
choose [] last c = last c
choose (r ∷ rs) last c = elim (all_ask 0 r.guard c) [ true ↦ r.action c | false ↦ choose rs last c ]

abbrev pub words : List String → List Ask
words [] = []
words (s ∷ ss) = one_of (codes s ∷ []) ∷ words ss

-- A rule that starts by advancing over the words of its guard.
abbrev pub on : {A : Type 0} → List String → Parser A → Rule A
on ss p = record { guard = words ss; action = advance_all (length ss) >> p }

-- What the rules for expressions, types and initializers call of one another.
pub record Rules : Type 0 where
  pub expr : Parser Expr
  pub primary : Parser Expr
  pub type_spec : Parser TypeSpec
  pub aggregate_block : Parser AggregateInitializer
