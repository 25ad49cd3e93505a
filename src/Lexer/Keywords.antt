-- ===== src/Lexer/Keywords.antt =====
-- src/lexer/alias_table.cpp: the words that stand for a keyword.
use plainspeak.Prelude.{Bool, Text, text_eq, codes, any, [], ◌∷◌}

abbrev pub is_set_keyword : Text → Bool
is_set_keyword w =
    any (text_eq w) (codes "set" ∷ codes "let" ∷ codes "make" ∷ codes "assign" ∷ codes "put" ∷ [])

abbrev pub is_say_keyword : Text → Bool
is_say_keyword w = any (text_eq w) (
    codes "say"
    ∷ codes "print"
    ∷ codes "show"
    ∷ codes "display"
    ∷ codes "write"
    ∷ codes "output"
    ∷ [])

abbrev pub is_declare_keyword : Text → Bool
is_declare_keyword w = any (text_eq w) (codes "declare" ∷ codes "create" ∷ [])

abbrev pub is_add_keyword : Text → Bool
is_add_keyword w = any (text_eq w) (codes "add" ∷ codes "sum" ∷ [])

abbrev pub is_subtract_keyword : Text → Bool
is_subtract_keyword w = any (text_eq w) (codes "subtract" ∷ codes "deduct" ∷ codes "take" ∷ [])

abbrev pub is_increase_keyword : Text → Bool
is_increase_keyword w = any (text_eq w) (codes "increase" ∷ codes "raise" ∷ codes "grow" ∷ [])

abbrev pub is_decrease_keyword : Text → Bool
is_decrease_keyword w = any (text_eq w) (codes "decrease" ∷ codes "reduce" ∷ codes "lower" ∷ [])

abbrev pub is_append_keyword : Text → Bool
is_append_keyword w = any (text_eq w) (codes "append" ∷ codes "push" ∷ [])

abbrev pub is_return_keyword : Text → Bool
is_return_keyword w = any (text_eq w) (codes "return" ∷ codes "yield" ∷ [])

abbrev pub is_unless_keyword : Text → Bool
is_unless_keyword w = text_eq w (codes "unless")

abbrev pub is_until_keyword : Text → Bool
is_until_keyword w = text_eq w (codes "until")
