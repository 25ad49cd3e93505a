-- ===== src/Tests/Mangling.antt =====
-- Names that src/codegen/mangling.cpp mangles.
use plainspeak.Prelude.{◌≡◌, refl, false, codes, ◌++◌, text_eq}
use plainspeak.Mangling.{is_reserved, mangle}
use plainspeak.Mangling.Correct.{is_reserved-mangle, mangle-injective}

-- `add` would be ps_add, a function of the runtime.
add_mangled : mangle (codes "add") ≡ codes "_ps_add"
unfolding mangle is_reserved text_eq
add_mangled = refl

is_reserved-mangle_example : is_reserved (mangle (codes "add")) ≡ false
is_reserved-mangle_example = is_reserved-mangle (codes "add")

mangle-injective_example : codes "add" ≡ codes "a" ++ codes "dd"
mangle-injective_example = mangle-injective (codes "add") (codes "a" ++ codes "dd") refl
