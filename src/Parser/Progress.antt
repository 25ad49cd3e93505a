-- ===== src/Parser/Progress.antt =====
-- How far the steps of src/parser/parser.cpp move the cursor, one lemma for each way to build a rule.
pub mod Steps
pub mod Operators
pub mod Rules
pub mod Statements
pub mod Correct
use plainspeak.Prelude.{
  ℕ, zero, suc, subst, ◌+◌, ◌≤◌, ◌<◌, ◌≡◌, refl, Bool, true, false, ◌&&◌, Text, List, [], ◌∷◌,
  length, any, arith, if◌then◌else◌, Bool-cases, text_eq, Option, none, some,
}
use plainspeak.Ast.{Place, Expr}
use plainspeak.Lexer.Tokenize.{TokKind, Token}
use plainspeak.Parser.{
  Cursor, Result, parsed, failed, out_of_fuel, Parser, pure, ◌>>=◌, then_with, token_at, peek,
  advance, is_kind, advance_to, check_word_at, check_word, check_words, kind_at, error, advance_all,
  expect_word, expect_ident_name, line_here, make_expr, remaining, when, if_some,
}

-- The tokenizer puts the Eof token last.
abbrev pub last_kind : Token → List Token → TokKind
last_kind t [] = t.kind
last_kind t (u ∷ us) = last_kind u us

pub record Ended (c : Cursor) : Type 0 where
  pub eof_last : last_kind c.current c.following ≡ TokKind.eof

-- Not out of fuel; and where a value is parsed, fewer than `b` tokens remain.
pub data Within {A : Type 0} (b : ℕ) : Result (A × Cursor) → Type 0 where
  on_parsed : {a : A} {c : Cursor} → Ended c → remaining c < b → Within b (parsed (a, c))
  on_failed : {line : ℕ} {message : Text} → Within b (failed line message)

-- With fewer than m tokens remaining, none is put back.
pub record Keeps {A : Type 0} (m : ℕ) (p : Parser A) : Type 0 where
  pub at : (c : Cursor) → Ended c → remaining c < m → Within (suc (remaining c)) (p c)

-- With at most m tokens remaining, at least one is taken.
pub record Takes {A : Type 0} (m : ℕ) (p : Parser A) : Type 0 where
  pub at : (c : Cursor) → Ended c → remaining c ≤ m → Within (remaining c) (p c)

module _ {A : Type 0} where
  pub Within-weaken : {b d : ℕ} {r : Result (A × Cursor)} → Within b r → b ≤ d → Within d r
  Within-weaken (on_parsed e h) le = on_parsed e (omega arith)
  Within-weaken on_failed le = on_failed

  pub Within-then :
      {B : Type 0} {b d : ℕ} {r : Result (A × Cursor)} {f : A → Parser B}
      → Within b r
      → ((a : A) (c : Cursor) → Ended c → remaining c < b → Within d (f a c))
      → Within d (then_with r f)
  Within-then (on_parsed e h) k = k _ _ e h
  Within-then on_failed k = on_failed

  pub Within-bind :
      {B : Type 0} {b d : ℕ} (p : Parser A) (f : A → Parser B) (c : Cursor)
      → Within b (p c)
      → ((a : A) (c' : Cursor) → Ended c' → remaining c' < b → Within d (f a c'))
      → Within d ((p >>= f) c)
  unfolding ◌>>=◌
  Within-bind p f c w k = Within-then w k

module _ {A : Type 0} {m : ℕ} where
  pub Keeps-no_tokens : (p : Parser A) → m ≤ 0 → Keeps m p
  Keeps-no_tokens p b = record { at = λ c e h. absurd (omega arith) }

  pub Keeps-pure : (a : A) → Keeps m (pure a)
  unfolding pure
  Keeps-pure a = record { at = λ c e h. on_parsed e (omega arith) }

  pub Keeps-error : (message : Text) → Keeps m (error {A = A} message)
  unfolding error
  Keeps-error message = record { at = λ c e h. on_failed }

  pub Keeps-when :
      (test : Cursor → Bool) (p q : Parser A) → Keeps m p → Keeps m q → Keeps m (when test p q)
  unfolding when
  Keeps-when test p q kp kq = record { at = λ c e h. by_case c (test c) e h }
    where
      by_case :
          (c : Cursor) (b : Bool)
          → Ended c
          → remaining c < m
          → Within (suc (remaining c)) (elim b [ true ↦ p c | false ↦ q c ])
      by_case c true e h = kp.at c e h
      by_case c false e h = kq.at c e h

  pub Keeps-if_some :
      {B : Type 0} (f : Cursor → Option B) (p : Parser A) (k : B → Parser A)
      → Keeps m p
      → ((b : B) → Keeps m (k b))
      → Keeps m (if_some f p k)
  unfolding if_some
  Keeps-if_some {B = B} f p k kp kk = record { at = λ c e h. by_case c (f c) e h }
    where
      by_case :
          (c : Cursor) (o : Option B)
          → Ended c
          → remaining c < m
          → Within (suc (remaining c)) (elim o [ none ↦ p c | some b ↦ k b c ])
      by_case c none e h = kp.at c e h
      by_case c (some b) e h = (kk b).at c e h

  pub Keeps-bind :
      {B : Type 0} (p : Parser A) (f : A → Parser B)
      → Keeps m p
      → ((a : A) → Keeps m (f a))
      → Keeps m (p >>= f)
  unfolding ◌>>=◌
  Keeps-bind p f kp kf = record {
    at = λ c e h.
        Within-then (kp.at c e h)
          λ a c' e' h'. Within-weaken ((kf a).at c' e' (omega arith)) (omega arith);
  }

  -- What follows a parser that takes a token starts further on.
  pub Keeps-bind_taking :
      {B : Type 0} (p : Parser A) (f : A → Parser B)
      → ((k : ℕ) → suc k ≤ m → Takes k p)
      → ((k : ℕ) (a : A) → suc k ≤ m → Keeps k (f a))
      → Keeps m (p >>= f)
  unfolding ◌>>=◌
  Keeps-bind_taking p f tp kf = record {
    at = λ c e h.
        Within-then ((tp (remaining c) h).at c e (omega arith))
          λ a c' e' h'. Within-weaken ((kf (remaining c) a h).at c' e' h') (omega arith);
  }

  -- A loop whose fuel is more than the tokens that remain.
  pub Keeps-of_fuel :
      (loop : ℕ → Parser A)
      → ((n k : ℕ) → k ≤ n → k ≤ m → Keeps k (loop n))
      → Keeps m (λ c. loop (suc (remaining c)) c)
  Keeps-of_fuel loop k = record {
    at = λ c e h.
        (k (suc (remaining c)) (suc (remaining c)) (omega arith) (omega arith)).at c e
          (omega arith);
  }

  -- A parser that is chosen by what is seen.
  pub Keeps-seen : (f : Cursor → Parser A) → ((c : Cursor) → Keeps m (f c)) → Keeps m (λ c. f c c)
  Keeps-seen f k = record { at = λ c e h. (k c).at c e h }

module _ {A : Type 0} where
  pub Keeps-of_Takes : (m : ℕ) (p : Parser A) → Takes m p → Keeps (suc m) p
  Keeps-of_Takes m p t = record {
    at = λ c e h. Within-weaken (t.at c e (omega arith)) (omega arith);
  }

  pub Keeps-below : (m : ℕ) (p : Parser A) → ((n : ℕ) → m ≡ suc n → Takes n p) → Keeps m p
  Keeps-below zero p t = record { at = λ c e h. absurd (omega arith) }
  Keeps-below (suc m) p t = Keeps-of_Takes m p (t m refl)

  pub Takes-Keeps : {m : ℕ} {p : Parser A} → Takes m p → Keeps m p
  Takes-Keeps t = record { at = λ c e h. Within-weaken (t.at c e (omega arith)) (omega arith) }

  pub Takes-less : (m n : ℕ) (p : Parser A) → Takes m p → n ≤ m → Takes n p
  Takes-less m n p t le = record { at = λ c e h. t.at c e (omega arith) }

  module _ {B : Type 0} (m : ℕ) (p : Parser A) (f : A → Parser B) where
    pub Takes-bind_first : Takes m p → ((a : A) → Keeps m (f a)) → Takes m (p >>= f)
    unfolding ◌>>=◌
    Takes-bind_first tp kf = record {
      at = λ c e h.
          Within-then (tp.at c e h)
            λ a c' e' h'. Within-weaken ((kf a).at c' e' (omega arith)) (omega arith);
    }

    pub Takes-bind_last : Keeps (suc m) p → ((a : A) → Takes m (f a)) → Takes m (p >>= f)
    unfolding ◌>>=◌
    Takes-bind_last kp tf = record {
      at = λ c e h.
          Within-then (kp.at c e (omega arith))
            λ a c' e' h'. Within-weaken ((tf a).at c' e' (omega arith)) (omega arith);
    }

-- The token in front is not the last one.
pub record Inside (c : Cursor) : Type 0 where
  pub more : 0 < remaining c

inside :
    (t : Token) (us : List Token) (k : TokKind)
    → last_kind t us ≡ TokKind.eof
    → is_kind k TokKind.eof ≡ false
    → is_kind t.kind k ≡ true
    → 0 < length us
inside t (u ∷ us) k e n h = omega arith
inside t [] k e n h = ground (arith, eof_is k (subst (λ x. is_kind x k ≡ true) e h))
  where
    eof_is : (k : TokKind) → is_kind TokKind.eof k ≡ true → is_kind k TokKind.eof ≡ true
    eof_is TokKind.eof h = refl
    eof_is k h = cc

pub Inside-of_kind :
    (c : Cursor) (k : TokKind)
    → Ended c
    → is_kind k TokKind.eof ≡ false
    → kind_at 0 k c ≡ true
    → Inside c
unfolding kind_at peek
Inside-of_kind c k e n h = record {
  more =
      inside c.current c.following k e.eof_last n
        (subst (λ t. is_kind t.kind k ≡ true) (front c.current c.following) h);
}
  where
    front : (t : Token) (us : List Token) → token_at t us 0 ≡ t
    front t [] = refl
    front t (u ∷ us) = refl

-- Inside the tokens a step is a step forward; at the last one it stays.
advance_to-Within :
    (t : Token) (us : List Token) (made : ℕ)
    → last_kind t us ≡ TokKind.eof
    → Within (suc (length us)) (advance_to t us made)
advance_to-Within t [] made e = on_parsed (record { eof_last = e }) (omega arith)
advance_to-Within t (u ∷ us) made e = on_parsed (record { eof_last = e }) (omega arith)

advance_to-inside :
    (t : Token) (us : List Token) (made : ℕ)
    → last_kind t us ≡ TokKind.eof
    → 0 < length us
    → Within (length us) (advance_to t us made)
advance_to-inside t [] made e h = elim h [ ]
advance_to-inside t (u ∷ us) made e h = on_parsed (record { eof_last = e }) (omega arith)

pub Keeps-advance : {m : ℕ} → Keeps m advance
unfolding advance
Keeps-advance = record { at = λ c e h. advance_to-Within c.current c.following c.made e.eof_last }

pub advance-Inside : (c : Cursor) → Ended c → Inside c → Within (remaining c) (advance c)
unfolding advance
advance-Inside c e i = advance_to-inside c.current c.following c.made e.eof_last i.more
