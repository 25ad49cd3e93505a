-- ===== src/Types.antt =====
-- src/sema/type.h and the helpers on types at the head of src/sema/sema.cpp.
pub mod Model
pub mod Equality
pub mod Predicates
pub mod Conversion
pub mod Pointers
pub mod Spelling
