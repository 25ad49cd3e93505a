-- ===== src/Constants.antt =====
-- Translation-time integer constants of src/sema/sema.cpp.
pub mod Long
pub mod Value
pub mod Meaning
