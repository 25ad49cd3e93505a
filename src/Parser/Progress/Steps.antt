-- ===== src/Parser/Progress/Steps.antt =====
-- The steps of src/parser/parser.cpp that rules are made of, and its chains of rules.
use Prim.Native.String.{String}
use plainspeak.Prelude.{
  ℕ, zero, suc, ◌≤◌, ◌<◌, ◌≡◌, refl, Bool, true, false, Text, codes, List, [], ◌∷◌, length, any,
  arith, if◌then◌else◌, Bool-cases, inl, inr, not,
}
use plainspeak.Ast.{Place, Expr}
use plainspeak.Lexer.Tokenize.{TokKind}
use plainspeak.Parser.{
  Cursor, Parser, pure, ◌>>=◌, advance, is_kind, check_word_at, check_word, check_words, kind_at,
  error, advance_all, expect_word, expect_ident_name, line_here, make_expr, remaining, when,
}
use plainspeak.Parser.Table.{Ask, one_of, of_kind, keyword, all_ask, Rule, choose, on}
use plainspeak.Parser.Progress.{
  Ended, Within, on_parsed, on_failed, Keeps, Takes, Within-weaken, Within-then, Keeps-pure,
  Keeps-error, Keeps-when, Keeps-if_some, Keeps-bind, Inside, Inside-of_kind, Keeps-advance,
  advance-Inside,
}

module _ {m : ℕ} where
  pub Keeps-advance_all : (n : ℕ) → Keeps m (advance_all n)
  unfolding advance_all
  Keeps-advance_all zero = Keeps-pure tt
  Keeps-advance_all (suc n) = Keeps-bind _ _ Keeps-advance λ _. Keeps-advance_all n

  pub Keeps-if :
      {A : Type 0} (test : Cursor → Bool) (p q : Parser A)
      → Keeps m p
      → Keeps m q
      → Keeps m (λ c. if test c then p c else q c)
  Keeps-if test p q kp kq = record { at = λ c e h. by_case c (test c) e h }
    where
      by_case :
          (c : Cursor) (b : Bool)
          → Ended c
          → remaining c < m
          → Within (suc (remaining c)) (if b then p c else q c)
      by_case c true e h = kp.at c e h
      by_case c false e h = kq.at c e h

  pub Keeps-expect_word : (word : Text) → Keeps m (expect_word word)
  unfolding expect_word
  Keeps-expect_word word = record {
    at = λ c e h. (Keeps-if (check_word word) _ _ Keeps-advance (Keeps-error _)).at c e h;
  }

  pub Keeps-expect_ident_name : Keeps m expect_ident_name
  unfolding expect_ident_name
  Keeps-expect_ident_name =
      Keeps-if _ _ _ (Keeps-bind _ _ Keeps-advance λ t. Keeps-pure t.text) (Keeps-error _)

  pub Keeps-line_here : Keeps m line_here
  unfolding line_here
  Keeps-line_here = record { at = λ c e h. on_parsed e (omega arith) }

  pub Keeps-make_expr : (node : Place → Expr) (line : ℕ) → Keeps m (make_expr node line)
  unfolding make_expr
  Keeps-make_expr node line = record {
    at = λ c e h. on_parsed (record { eof_last = e.eof_last }) (omega arith);
  }

pub ruleset keeps_rules = (
  Keeps-pure, Keeps-error, Keeps-when, Keeps-if_some, Keeps-bind, Keeps-advance, Keeps-advance_all,
  Keeps-expect_word, Keeps-expect_ident_name, Keeps-line_here, Keeps-make_expr,
)

word_at-Inside : (word : Text) (c : Cursor) → Ended c → check_word_at 0 word c ≡ true → Inside c
unfolding check_word_at
word_at-Inside word c e h = Inside-of_kind c TokKind.ident e refl (ident_here c word h)
  where
    ident_here :
        (c : Cursor) (word : Text)
        → check_word_at 0 word c ≡ true
        → kind_at 0 TokKind.ident c ≡ true
    ident_here c word h = unfold kind_at in ground arith

pub check_word-Inside : (word : Text) (c : Cursor) → Ended c → check_word word c ≡ true → Inside c
unfolding check_word
check_word-Inside word c e h = word_at-Inside word c e h

any-Inside :
    (ws : List Text) (c : Cursor) → Ended c → any (λ w. check_word_at 0 w c) ws ≡ true → Inside c
any-Inside [] c e h = cc
any-Inside (w ∷ ws) c e h = elim (Bool-cases (check_word_at 0 w c)) [
  | inl x ↦ word_at-Inside w c e x
  | inr x ↦ any-Inside ws c e (ground (arith, x))
]

pub check_words-Inside :
    (ws : List Text) (rest : List (List Text)) (c : Cursor)
    → Ended c
    → check_words 0 (ws ∷ rest) c ≡ true
    → Inside c
unfolding check_words
check_words-Inside ws rest c e h = any-Inside ws c e (ground arith)

-- The first ask of a guard is never met by the last token.
abbrev pub starts : List Ask → Bool
starts [] = false
starts (one_of ws ∷ rest) = true
starts (of_kind k ∷ rest) = not (is_kind k TokKind.eof)
starts (keyword f ∷ rest) = true

guard-Inside :
    (as' : List Ask) (c : Cursor) → Ended c → starts as' ≡ true → all_ask 0 as' c ≡ true → Inside c
guard-Inside [] c e s h = cc
guard-Inside (one_of ws ∷ rest) c e s h = any-Inside ws c e (ground arith)
guard-Inside (of_kind k ∷ rest) c e s h = Inside-of_kind c k e (ground arith) (ground arith)
guard-Inside (keyword f ∷ rest) c e s h = Inside-of_kind c TokKind.ident e refl (ground arith)

-- Before the last token, at least one is taken.
pub record Begins {A : Type 0} (m : ℕ) (p : Parser A) : Type 0 where
  pub at : (c : Cursor) → Ended c → Inside c → remaining c ≤ m → Within (remaining c) (p c)

module _ {m : ℕ} where
  pub Begins-advance : Begins m advance
  Begins-advance = record { at = λ c e i h. advance-Inside c e i }

  pub Begins-bind :
      {A B : Type 0} (p : Parser A) (f : A → Parser B)
      → Begins m p
      → ((a : A) → Keeps m (f a))
      → Begins m (p >>= f)
  unfolding ◌>>=◌
  Begins-bind p f bp kf = record {
    at = λ c e i h.
        Within-then (bp.at c e i h)
          λ a c' e' h'. Within-weaken ((kf a).at c' e' (omega arith)) (omega arith);
  }

  pub Takes-when :
      {A : Type 0} (test : Cursor → Bool) (p q : Parser A)
      → ((c : Cursor) → Ended c → test c ≡ true → Inside c)
      → Begins m p
      → Takes m q
      → Takes m (when test p q)
  unfolding when
  Takes-when {A = A} test p q i bp tq = record { at = λ c e h. by_case c (test c) refl e h }
    where
      by_case :
          (c : Cursor) (b : Bool)
          → test c ≡ b
          → Ended c
          → remaining c ≤ m
          → Within (remaining c) (elim b [ true ↦ p c | false ↦ q c ])
      by_case c true x e h = bp.at c e (i c e x) h
      by_case c false x e h = tq.at c e h

  pub Keeps-when-Inside :
      {A : Type 0} (test : Cursor → Bool) (p q : Parser A)
      → ((c : Cursor) → Ended c → test c ≡ true → Inside c)
      → ((k : ℕ) → suc k ≤ m → Begins k p)
      → Keeps m q
      → Keeps m (when test p q)
  unfolding when
  Keeps-when-Inside {A = A} test p q i bp kq = record { at = λ c e h. by_case c (test c) refl e h }
    where
      by_case :
          (c : Cursor) (b : Bool)
          → test c ≡ b
          → Ended c
          → remaining c < m
          → Within (suc (remaining c)) (elim b [ true ↦ p c | false ↦ q c ])
      by_case c true x e h =
          Within-weaken ((bp (remaining c) h).at c e (i c e x) (omega arith)) (omega arith)
      by_case c false x e h = kq.at c e h

  pub Begins-expect_ident_name : Begins m expect_ident_name
  unfolding expect_ident_name
  Begins-expect_ident_name = record { at = λ c e i h. by_case c (kind_at 0 TokKind.ident c) e i h }
    where
      by_case :
          (c : Cursor) (b : Bool)
          → Ended c
          → Inside c
          → remaining c ≤ m
          → Within (remaining c) (
              if b
              then (advance >>= λ t. pure t.text) c
              else error (codes "expected a name here") c)
      by_case c true e i h = (Begins-bind _ _ Begins-advance λ t. Keeps-pure t.text).at c e i h
      by_case c false e i h = unfold error in on_failed

  pub Begins-line_here :
      {B : Type 0} (f : ℕ → Parser B)
      → ((line : ℕ) → Begins m (f line))
      → Begins m (line_here >>= f)
  unfolding ◌>>=◌ line_here
  Begins-line_here f bf = record { at = λ c e i h. (bf _).at c e i h }

  pub Begins-advance_all : (n : ℕ) → Begins m (advance_all (suc n))
  unfolding advance_all
  Begins-advance_all n = Begins-bind _ _ Begins-advance λ _. Keeps-advance_all n

module _ {A : Type 0} (m : ℕ) where
  pub record Fits (r : Rule A) : Type 0 where
    pub asks_first : starts r.guard ≡ true
    pub begins : Begins m r.action

  infixr 5 ◌&◌
  pub data AllFit : List (Rule A) → Type 0 where
    none_left : AllFit []
    ◌&◌ : {r : Rule A} {rs : List (Rule A)} → Fits r → AllFit rs → AllFit (r ∷ rs)

  pub on-Fits : (s : String) (ss : List String) (p : Parser A) → Keeps m p → Fits (on (s ∷ ss) p)
  on-Fits s ss p k = record {
    asks_first = refl;
    begins = Begins-bind _ _ (Begins-advance_all (length ss)) λ _. k;
  }

  pub choose-Takes_or :
      (rs : List (Rule A)) (last : Parser A) → AllFit rs → Takes m last → Takes m (choose rs last)
  unfolding choose
  choose-Takes_or [] last fits t = t
  choose-Takes_or (r ∷ rs) last (fit & fits) t = record {
    at = λ c e h. chosen c e h (choose-Takes_or rs last fits t) (all_ask 0 r.guard c) refl;
  }
    where
      chosen :
          (c : Cursor)
          → Ended c
          → remaining c ≤ m
          → Takes m (choose rs last)
          → (b : Bool) → all_ask 0 r.guard c ≡ b
          → Within (remaining c) (elim b [ true ↦ r.action c | false ↦ choose rs last c ])
      chosen c e h t true g = fit.begins.at c e (guard-Inside r.guard c e fit.asks_first g) h
      chosen c e h t false g = t.at c e h

  pub Takes-error : (message : Text) → Takes m (error {A = A} message)
  unfolding error
  Takes-error message = record { at = λ c e h. on_failed }

  pub choose-Takes :
      (rs : List (Rule A)) (message : Text) → AllFit rs → Takes m (choose rs (error message))
  choose-Takes rs message fits = choose-Takes_or rs _ fits (Takes-error message)
