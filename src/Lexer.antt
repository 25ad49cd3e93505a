-- ===== src/Lexer.antt =====
-- src/lexer/tokenizer.h, tokenizer.cpp and alias_table.cpp.
pub mod Chars
pub mod Scan
pub mod Tokenize
pub mod Keywords
