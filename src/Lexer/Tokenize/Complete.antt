-- ===== src/Lexer/Tokenize/Complete.antt =====
-- src/lexer/tokenizer.cpp: the loop of Tokenizer::tokenize ends; the tokens' lines never go back, and
-- the end token stands on the last line.
use plainspeak.Prelude.{
  ℕ, zero, suc, ◌+◌, ◌≤◌, ◌≡◌, refl, ap, sym, subst, Bool, false, Text, List, [], ◌∷◌, length,
  Option, none, some, arith,
}
use plainspeak.Lexer.Chars.{next_line}
use plainspeak.Lexer.Scan.Progress.{newlines}
use plainspeak.Lexer.Tokenize.{
  TokKind, Token, Step, skip, emit, fail, plain_token, lex_step, Lexed, tokens, thrown, push, run,
  tokenize,
}
use plainspeak.Lexer.Tokenize.Steps.{is_eof, StepMoves, lex_step-moves}

-- Tokens whose lines never go back, from `low` on, with one end token: the last, on line n.
unfoldable pub InOrder : ℕ → ℕ → List Token → Type 0
InOrder low n [] = ⊥
InOrder low n (t ∷ []) = (low ≤ t.line) × (t ≡ plain_token TokKind.eof [] n)
InOrder low n (t ∷ u ∷ ts) = (low ≤ t.line) × (is_eof t.kind ≡ false) × InOrder t.line n (u ∷ ts)

abbrev InOrderIfLexed : ℕ → ℕ → Lexed → Type 0
unfolding InOrder
InOrderIfLexed low n (tokens ts) = InOrder low n ts
InOrderIfLexed low n (thrown e) = Unit

InOrder-lower :
    (low low' n : ℕ) (ts : List Token) → low' ≤ low → InOrder low n ts → InOrder low' n ts
unfolding InOrder
InOrder-lower low low' n [] h o = o
InOrder-lower low low' n (t ∷ []) h (a, e) = (omega (arith, a), e)
InOrder-lower low low' n (t ∷ u ∷ ts) h (a, e, r) = (omega (arith, a), e, r)

lower_lexed :
    (low low' n : ℕ) (r : Lexed) → low' ≤ low → InOrderIfLexed low n r → InOrderIfLexed low' n r
unfolding InOrder
lower_lexed low low' n (tokens ts) h o = InOrder-lower low low' n ts h o
lower_lexed low low' n (thrown e) h o = tt

-- The loop from a place on: it ends, in order.
abbrev RunsFrom : (Text → Bool) → ℕ → Option TokKind → Text → ℕ → Type 0
unfolding run InOrder
RunsFrom fits fuel last text line =
    (r : Lexed) × (run fits fuel last text line ≡ some r)
    × InOrderIfLexed line (line + newlines text) r

pushed :
    (t : Token) (line n : ℕ) (o : Option Lexed)
    → t.line ≡ line
    → is_eof t.kind ≡ false
    → (r : Lexed) × (o ≡ some r) × InOrderIfLexed line n r
    → (r : Lexed) × (push t o ≡ some r) × InOrderIfLexed line n r
unfolding InOrder
pushed t line n o h k (thrown e, eq, m) = (thrown e, ap (push t) eq, tt)
pushed t line n o h k (tokens [], eq, m) = absurd m
pushed t line n o h k (tokens (u ∷ ts), eq, m) =
    (tokens (t ∷ u ∷ ts), ap (push t) eq, (omega (arith, h), k, rw h m))

-- What the loop makes of a round, if the rest of the loop ends in order.
after_step :
    (fits : Text → Bool) (fuel : ℕ) (last : Option TokKind) (text : Text) (line behind : ℕ)
    (s : Step)
    → length text ≤ fuel
    → line ≤ behind
    → StepMoves text line behind s
    → ((k : Option TokKind) (rest : Text) (l : ℕ)
        → length rest ≤ fuel
        → RunsFrom fits fuel k rest l)
    → (r : Lexed) × (elim s [
      | skip rest line' ↦ run fits fuel last rest line'
      | emit t rest line' ↦ push t (run fits fuel (some t.kind) rest line')
      | fail e ↦ some (thrown e)
    ]
        ≡ some r)
      × InOrderIfLexed line (behind + newlines text) r
unfolding run InOrder
after_step fits fuel last text line behind (skip rest line') b f m ih =
    let (r, e, o) = ih last rest line' (omega (arith, m.no_longer)) in
    (r, e, lower_lexed line' line _ r (omega (arith, m.forward)) (rw (sym m.counted) o))
after_step fits fuel last text line behind (emit t rest line') b f (m, h, k) ih =
    let (r, e, o) = ih (some t.kind) rest line' (omega (arith, m.no_longer)) in
    pushed t line (behind + newlines text) (run fits fuel (some t.kind) rest line') h k
      (r, e, lower_lexed line' line _ r (omega (arith, m.forward)) (rw (sym m.counted) o))
after_step fits fuel last text line behind (fail e) b f m ih = (thrown e, refl, tt)

run_ends :
    (fits : Text → Bool) (fuel : ℕ) (last : Option TokKind) (text : Text) (line : ℕ)
    → length text ≤ fuel
    → RunsFrom fits fuel last text line
unfolding run InOrder
run_ends fits fuel last [] line h = (
  tokens (plain_token TokKind.eof [] line ∷ []),
  refl,
  (omega arith, ap (plain_token TokKind.eof []) (omega arith)),
)
run_ends fits zero last (c ∷ text) line h = absurd (omega arith)
run_ends fits (suc fuel) last (c ∷ text) line h =
    let n : next_line c line + newlines text ≡ line + newlines (c ∷ text) = ground arith in
    let (r, e, o) =
      after_step fits fuel last text line (next_line c line) (lex_step fits last c text line)
        (omega arith) (ground arith) (lex_step-moves fits last c text line)
        (λ k rest l b. run_ends fits fuel k rest l b) in
    (r, e, subst (λ x. InOrderIfLexed line x r) n o)

-- Tokenize ends for every text, as many rounds as characters being enough. Where it throws nothing,
-- the lines of its tokens never go back and its last token is its only end token, on the line after
-- every newline of the text.
pub tokenize-InOrder :
    (fits : Text → Bool) (source : Text)
    → (r : Lexed) × (tokenize fits source ≡ some r)
      × ((ts : List Token) → r ≡ tokens ts → InOrder 1 (1 + newlines source) ts)
unfolding tokenize run InOrder
tokenize-InOrder fits source =
    let (r, e, o) = run_ends fits (length source) none source 1 (omega arith) in
    (r, e, λ ts h. subst (InOrderIfLexed 1 (1 + newlines source)) h o)
