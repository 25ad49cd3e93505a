-- ===== src/Parser/Statements/Verbs.antt =====
-- src/parser/parser.cpp: the branches of parseStmt against those of parseTopLevelStmt.
use plainspeak.Prelude.{
  ℕ, suc, ◌≡◌, refl, sym, ◌∙◌, subst, Bool, true, false, ◌&&◌, not, Text, codes, text_eq,
  text_eq_sound, List, [], ◌∷◌, any, arith,
}
use plainspeak.Ast.{Stmt}
use plainspeak.Lexer.Tokenize.{TokKind}
use plainspeak.Parser.{
  Cursor, Result, parsed, failed, Parser, peek, check_word_at, kind_at, error, when,
}
use plainspeak.Parser.Table.{Ask, one_of, of_kind, keyword, all_ask, Rule, choose, Rules}
use plainspeak.Parser.Statements.Program.{
  variadic_rules, block_rules, plain_rules, first_rules, stmt_rules, top_level_rules, parse_verb,
  parse_stmt, parse_top_level_stmt,
}

-- Whether a sentence that begins with the word may be one of the guard's.
abbrev may_begin : Text → List Ask → Bool
may_begin word [] = true
may_begin word (one_of ws ∷ rest) = any (text_eq word) ws
may_begin word (of_kind k ∷ rest) = true
may_begin word (keyword f ∷ rest) = f word

abbrev none_begins : {A : Type 0} → Text → List (Rule A) → Bool
none_begins word [] = true
none_begins word (r ∷ rs) = not (may_begin word r.guard) && none_begins word rs

-- The guard asks for the word first.
abbrev asks_for : Text → List Ask → Bool
asks_for word (one_of (w ∷ []) ∷ rest) = text_eq w word
asks_for word guard = false

-- The second list is the first with rules added, each for a word that no later rule of the first begins with.
data Extends {A : Type 0} : List (Rule A) → List (Rule A) → Type 0 where
  nothing : Extends [] []
  same : {r : Rule A} {rs ss : List (Rule A)} → Extends rs ss → Extends (r ∷ rs) (r ∷ ss)
  added :
      {r : Rule A} {rs ss : List (Rule A)} (word : Text)
      → asks_for word r.guard ≡ true
      → none_begins word rs ≡ true
      → Extends rs ss
      → Extends rs (r ∷ ss)

module _ (c : Cursor) where
  -- What the front word of the guard says of the cursor.
  asked-may_begin :
      (guard : List Ask) → all_ask 0 guard c ≡ true → may_begin (peek c 0).text guard ≡ true
  unfolding check_word_at
  asked-may_begin [] h = refl
  asked-may_begin (one_of ws ∷ rest) h = some_begins ws (ground arith)
    where
      some_begins :
          (ws : List Text)
          → any (λ w. check_word_at 0 w c) ws ≡ true
          → any (text_eq (peek c 0).text) ws ≡ true
      some_begins [] h = h
      some_begins (w ∷ ws) h = ground (arith, some_begins ws)
  asked-may_begin (of_kind k ∷ rest) h = refl
  asked-may_begin (keyword f ∷ rest) h = ground arith

  asked-word :
      (word : Text) (guard : List Ask)
      → asks_for word guard ≡ true
      → all_ask 0 guard c ≡ true
      → (peek c 0).text ≡ word
  unfolding check_word_at
  asked-word word [] h g = cc
  asked-word word (one_of [] ∷ rest) h g = cc
  asked-word word (one_of (w ∷ []) ∷ rest) h g =
      text_eq_sound _ w (ground arith) ∙ text_eq_sound w word h
  asked-word word (one_of (w ∷ v ∷ ws) ∷ rest) h g = cc
  asked-word word (of_kind k ∷ rest) h g = cc
  asked-word word (keyword f ∷ rest) h g = cc

  module _ {A : Type 0} (last : Parser A) where
    choose-last :
        (rs : List (Rule A)) → none_begins (peek c 0).text rs ≡ true → choose rs last c ≡ last c
    unfolding choose
    choose-last [] h = refl
    choose-last (r ∷ rs) h =
        by_case (all_ask 0 r.guard c) (asked-may_begin r.guard) (ground arith)
          (choose-last rs (ground arith))
      where
        by_case :
            (b : Bool)
            → (b ≡ true → may_begin (peek c 0).text r.guard ≡ true)
            → may_begin (peek c 0).text r.guard ≡ false
            → choose rs last c ≡ last c
            → elim b [ true ↦ r.action c | false ↦ choose rs last c ] ≡ last c
        by_case true g n e = absurd (ground (arith, g refl))
        by_case false g n e = e

    -- Where no rule of the first list is chosen, nothing is parsed.
    module _ (last' : Parser A) (fails : (x : A × Cursor) → ¬ (last c ≡ parsed x)) where
      choose-Extends :
          {rs ss : List (Rule A)} (x : A × Cursor)
          → Extends rs ss
          → choose rs last c ≡ parsed x
          → choose ss last' c ≡ parsed x
      unfolding choose
      choose-Extends x nothing e = absurd (fails x e)
      choose-Extends x (same {r = r} {rs = rs} {ss = ss} s) e =
          by_case (all_ask 0 r.guard c) (λ h. choose-Extends x s h) e
        where
          by_case :
              (b : Bool)
              → (choose rs last c ≡ parsed x → choose ss last' c ≡ parsed x)
              → elim b [ true ↦ r.action c | false ↦ choose rs last c ] ≡ parsed x
              → elim b [ true ↦ r.action c | false ↦ choose ss last' c ] ≡ parsed x
          by_case true h e = e
          by_case false h e = h e
      choose-Extends x (added {r = r} {rs = rs} {ss = ss} word a n s) e =
          by_case (all_ask 0 r.guard c) refused (choose-Extends x s e)
        where
          refused : ¬ (all_ask 0 r.guard c ≡ true)
          refused g = fails x (
              sym (
                choose-last rs
                  (subst (λ t. none_begins t rs ≡ true) (sym (asked-word word r.guard a g)) n))
              ∙ e)

          by_case :
              (b : Bool)
              → ¬ (b ≡ true)
              → choose ss last' c ≡ parsed x
              → elim b [ true ↦ r.action c | false ↦ choose ss last' c ] ≡ parsed x
          by_case true n e = absurd (n refl)
          by_case false n e = e

module _ (g : Rules) (stmt : Parser Stmt) where
  first_rules-Extends :
      {rs ss : List (Rule Stmt)}
      → Extends rs ss
      → Extends (first_rules g stmt rs) (first_rules g stmt ss)
  first_rules-Extends s = same (same (same s))

  plain_rules-Extends :
      {rs ss : List (Rule Stmt)}
      → Extends rs ss
      → Extends (plain_rules g stmt rs) (plain_rules g stmt ss)
  plain_rules-Extends s =
      same (same (same (same (same (same (same (same (same (same (same (same s)))))))))))

  block_rules-Extends :
      {rs ss : List (Rule Stmt)}
      → Extends rs ss
      → Extends (block_rules g stmt rs) (block_rules g stmt ss)
  block_rules-Extends s = same (
      same (
        same (
          same (
            same (
              same
                (same (same (same (same (same (same (same (same (same (same (same s))))))))))))))))

  variadic_rules-Extends :
      {rs ss : List (Rule Stmt)} → Extends rs ss → Extends (variadic_rules rs) (variadic_rules ss)
  variadic_rules-Extends s = same (same (same (same s)))

  stmt_rules-Extends : Extends (stmt_rules g stmt) (top_level_rules g stmt)
  unfolding stmt_rules top_level_rules text_eq
  stmt_rules-Extends = first_rules-Extends (
      added (codes "structure") refl refl (
        added (codes "union") refl refl (
          added (codes "enumeration") refl refl (
            added (codes "define") refl refl (
              plain_rules-Extends (
                block_rules-Extends (
                  added (codes "atomic") refl refl (
                    added (codes "atomic") refl refl (
                      variadic_rules-Extends (
                        added (codes "import") refl refl (
                          added (codes "import") refl refl (
                            added (codes "atomic") refl refl
                              (added (codes "atomic") refl refl nothing)))))))))))))

failed-parsed :
    {A : Type 0} (line : ℕ) (message : Text) (x : A) → ¬ (failed line message ≡ parsed x)
failed-parsed line message x e = cc

parse_verb-Extends :
    (rs ss : List (Rule Stmt)) (expected verbs expected' verbs' : Text) (c : Cursor)
    (x : Stmt × Cursor)
    → Extends rs ss
    → parse_verb rs expected verbs c ≡ parsed x
    → parse_verb ss expected' verbs' c ≡ parsed x
unfolding parse_verb when error
parse_verb-Extends rs ss expected verbs expected' verbs' c x s e =
    by_case _ _ _ _ _ _ (kind_at 0 TokKind.comment c) (not (kind_at 0 TokKind.ident c))
      (choose-Extends c _ _ (λ y h. failed-parsed _ _ y h) x s) e
  where
    by_case :
        (p q r : Result (Stmt × Cursor)) (line : ℕ) (m n : Text) (a b : Bool)
        → (q ≡ parsed x → r ≡ parsed x)
        → elim a [ true ↦ p | false ↦ elim b [ true ↦ failed line m | false ↦ q ] ] ≡ parsed x
        → elim a [ true ↦ p | false ↦ elim b [ true ↦ failed line n | false ↦ r ] ] ≡ parsed x
    by_case p q r line m n true b h e = e
    by_case p q r line m n false true h e = absurd (failed-parsed _ _ x e)
    by_case p q r line m n false false h e = h e

-- What parseStmt makes of a sentence in a block, parseTopLevelStmt makes of it at the top level: the rules
-- that only the latter has come before none that the former chooses.
pub parse_top_level_stmt-parse_stmt :
    (g : Rules) (n : ℕ) (c : Cursor) (x : Stmt × Cursor)
    → parse_stmt g (suc n) c ≡ parsed x
    → parse_top_level_stmt g n c ≡ parsed x
unfolding parse_stmt parse_top_level_stmt
parse_top_level_stmt-parse_stmt g n c x e =
    parse_verb-Extends _ _ _ _ _ _ c x (stmt_rules-Extends g (parse_stmt g n)) e
