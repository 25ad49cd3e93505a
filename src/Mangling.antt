-- ===== src/Mangling.antt =====
-- src/codegen/mangling.cpp: the C name of a PlainSpeak name; and the functions that the runtime library
-- declares (runtime/plainspeak_runtime.h).
pub mod Correct
use plainspeak.Prelude.{Bool, ◌||◌, Text, text_eq, codes, List, [], ◌∷◌, ◌++◌, any, if◌then◌else◌}

abbrev pub c_keywords : List Text
c_keywords =
    codes "auto"
    ∷ codes "break"
    ∷ codes "case"
    ∷ codes "char"
    ∷ codes "const"
    ∷ codes "continue"
    ∷ codes "default"
    ∷ codes "do"
    ∷ codes "double"
    ∷ codes "else"
    ∷ codes "enum"
    ∷ codes "extern"
    ∷ codes "float"
    ∷ codes "for"
    ∷ codes "goto"
    ∷ codes "if"
    ∷ codes "int"
    ∷ codes "long"
    ∷ codes "register"
    ∷ codes "return"
    ∷ codes "short"
    ∷ codes "signed"
    ∷ codes "sizeof"
    ∷ codes "static"
    ∷ codes "struct"
    ∷ codes "switch"
    ∷ codes "typedef"
    ∷ codes "union"
    ∷ codes "unsigned"
    ∷ codes "void"
    ∷ codes "volatile"
    ∷ codes "while"
    ∷ codes "inline"
    ∷ codes "restrict"
    ∷ codes "_Bool"
    ∷ codes "_Complex"
    ∷ codes "_Imaginary"
    ∷ codes "_Alignas"
    ∷ codes "_Alignof"
    ∷ codes "_Atomic"
    ∷ codes "_Generic"
    ∷ codes "_Noreturn"
    ∷ codes "_Static_assert"
    ∷ codes "_Thread_local"
    ∷ codes "alignas"
    ∷ codes "alignof"
    ∷ codes "bool"
    ∷ codes "constexpr"
    ∷ codes "nullptr"
    ∷ codes "static_assert"
    ∷ codes "thread_local"
    ∷ codes "_BitInt"
    ∷ codes "_Decimal128"
    ∷ codes "_Decimal32"
    ∷ codes "_Decimal64"
    ∷ codes "typeof"
    ∷ codes "typeof_unqual"
    ∷ codes "true"
    ∷ codes "false"
    ∷ codes "asm"
    ∷ codes "fortran"
    ∷ []

abbrev pub runtime_symbols : List Text
runtime_symbols =
    codes "ps_int"
    ∷ codes "ps_str"
    ∷ codes "ps_add"
    ∷ codes "ps_gt"
    ∷ codes "ps_lt"
    ∷ codes "ps_eq"
    ∷ codes "ps_as_int"
    ∷ codes "ps_as_double"
    ∷ codes "ps_truthy"
    ∷ codes "ps_say"
    ∷ codes "ps_sub"
    ∷ codes "ps_mul"
    ∷ codes "ps_div"
    ∷ codes "ps_mod"
    ∷ codes "ps_and"
    ∷ codes "ps_or"
    ∷ codes "ps_not"
    ∷ codes "ps_neg"
    ∷ codes "ps_double"
    ∷ codes "ps_read"
    ∷ codes "ps_read_double"
    ∷ codes "ps_sin"
    ∷ codes "ps_cos"
    ∷ codes "ps_tan"
    ∷ codes "ps_sqrt"
    ∷ codes "ps_log"
    ∷ codes "ps_abs"
    ∷ codes "ps_floor"
    ∷ codes "ps_ceil"
    ∷ codes "ps_pow"
    ∷ codes "PsValue"
    ∷ codes "PS_INT"
    ∷ codes "PS_DOUBLE"
    ∷ codes "PS_STRING"
    ∷ []

-- c_keywords.count(name) || runtime_symbols.count(name)
unfoldable pub is_reserved : Text → Bool
unfolding text_eq
is_reserved name = any (text_eq name) c_keywords || any (text_eq name) runtime_symbols

unfoldable pub mangle : Text → Text
unfolding is_reserved
mangle name =
    if is_reserved (codes "ps_" ++ name) then codes "_ps_" ++ name else codes "ps_" ++ name
