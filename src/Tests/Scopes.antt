-- ===== src/Tests/Scopes.antt =====
-- Scopes and labels of src/sema/sema.cpp on small cases.
use plainspeak.Prelude.{◌≡◌, codes, ◌&&◌, all, List, [], ◌∷◌}
use plainspeak.Scopes.{
  declare_all, enter_scope, leave_scope, Scope, Jump, label, goto, declare_var, check_jumps,
  validate_labels, fallback_symbol,
}
use plainspeak.Scopes.Lookup.{IsDeclared, declare_var-find_var, leave_scope-block}
use plainspeak.Scopes.Labels.{
  labels_of, targets_of, among, distinct, is_nil, no_labels, validate_labels-accepts,
}

abbrev one_name : Scope
one_name = (codes "n", fallback_symbol) ∷ []

declare_var-find_var_example :
    IsDeclared
      (codes "m")
      fallback_symbol
      4
      one_name
      []
      []
      (declare_var (codes "m") fallback_symbol 4 (one_name ∷ []) [])
declare_var-find_var_example = declare_var-find_var (codes "m") fallback_symbol 4 one_name [] []

-- Go to done. Label done. Label done.
abbrev twice : List Jump
twice = goto (codes "done") 1 ∷ label (codes "done") 2 ∷ label (codes "done") 3 ∷ []

validate_labels-accepts_example :
    is_nil (validate_labels (check_jumps twice no_labels)).diags
    ≡ (distinct (labels_of twice) && all (among (labels_of twice)) (targets_of twice))
validate_labels-accepts_example = validate_labels-accepts twice

leave_scope-block_example :
    leave_scope
      (declare_all
        ((codes "n", fallback_symbol, 1) ∷ (codes "n", fallback_symbol, 2) ∷ [])
        (enter_scope (one_name ∷ []))
        []).0
    ≡ one_name ∷ []
leave_scope-block_example =
    leave_scope-block ((codes "n", fallback_symbol, 1) ∷ (codes "n", fallback_symbol, 2) ∷ [])
      (one_name ∷ []) []
