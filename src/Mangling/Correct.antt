-- ===== src/Mangling/Correct.antt =====
-- src/codegen/mangling.cpp: which names mangle can give.
use plainspeak.Prelude.{
  get_or, sym, ap, ◌∙◌, ◌≡◌, ◌⊎◌, inl, inr, refl, Bool, true, false, not, Text, text_eq, codes,
  ◌++◌, Bool-cases, arith,
}
use plainspeak.Mangling.{is_reserved, mangle}

mangle-cases :
    (name : Text)
    → ((mangle name ≡ codes "_ps_" ++ name) × (is_reserved (codes "ps_" ++ name) ≡ true))
      ⊎ ((mangle name ≡ codes "ps_" ++ name) × (is_reserved (codes "ps_" ++ name) ≡ false))
unfolding mangle
mangle-cases name = elim (Bool-cases (is_reserved (codes "ps_" ++ name))) [
  | inl e ↦ inl (rw e refl, e)
  | inr e ↦ inr (rw e refl, e)
]

false_of : {b : Bool} → not b ≡ true → b ≡ false
false_of {b} h = ground arith

escaped_free : (name : Text) → is_reserved (codes "_ps_" ++ name) ≡ false
unfolding is_reserved text_eq
escaped_free name = refl

-- No name is mangled to one of the C keywords or of the runtime symbols that mangle knows.
pub is_reserved-mangle : (name : Text) → is_reserved (mangle name) ≡ false
is_reserved-mangle name = elim (mangle-cases name) [
  | inl (e, h) ↦ rw e (escaped_free name)
  | inr (e, h) ↦ rw e h
]

clash : (a b : Text) → codes "_ps_" ++ a ≡ codes "ps_" ++ b → ⊥
clash a b h =
    let e : get_or (codes "_ps_" ++ a) 0 0 ≡ get_or (codes "ps_" ++ b) 0 0 =
      ap (λ t. get_or t 0 0) h in
    omega (arith, e)

-- Different names are mangled to different names.
pub mangle-injective : (a b : Text) → mangle a ≡ mangle b → a ≡ b
mangle-injective a b h = elim (mangle-cases a) [
  | inl (ea, ha) ↦ elim (mangle-cases b) [
    | inl (eb, hb) ↦ cc
    | inr (eb, hb) ↦ absurd (clash a b (sym ea ∙ h ∙ eb))
  ]
  | inr (ea, ha) ↦ elim (mangle-cases b) [
    | inl (eb, hb) ↦ absurd (clash b a (sym eb ∙ sym h ∙ ea))
    | inr (eb, hb) ↦ cc
  ]
]
