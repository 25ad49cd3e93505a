-- ===== src/Lib.antt =====
-- PlainSpeak compiles English-like prose to C. The driver (src/cli) reads a file; the lexer
-- (src/lexer) makes tokens of it; the parser (src/parser) builds the tree of src/ast; semantic
-- analysis (src/sema) checks it and records what it learned; the emitter (src/codegen) writes C.
--
--   Prelude            Boolean tests, lists, texts as lists of bytes, and the integers
--   Ast                src/ast/ast.h: expressions, type specifications, statements
--   Lexer              src/lexer: tokenizer.cpp (Scan has the inner loops of tokenize, Tokenize its
--                      rounds and the loop) and alias_table.cpp (Keywords)
--   Parser             src/parser/parser.cpp: the cursor and every rule. Operators is parseOr to
--                      parsePower, Types parseTypeSpec, Aggregates parseAggregateBlock and the forms
--                      with loops of their own, Primary the branches of parsePrimary; Table tries
--                      rules in order; Grammar ties them. Statements has the rules of statements:
--                      Simple, Imports, Declarations, Procedures and Blocks by what they hold, Program
--                      parseStmt to parseProgram, Verbs how parseStmt and parseTopLevelStmt agree
--   Driver             src/cli/main.cpp: the tokenizer and the parser, one after the other
--   Constants          src/sema/sema.cpp: checkedAddLong, checkedSubLong, checkedMulLong and
--                      integerConstantValue; Meaning says what a constant expression denotes
--   ReturnPath         src/sema/sema.cpp: Compile if selection, bodyHasLevelBreak,
--                      containsReturnStatement and ReturnPathChecker. Graph, Build and Sweep
--                      are its successor lists, buildStmt and sweepFrom; Exits says which paths
--                      a body has, by its structure and by the meaning of its expressions,
--                      and which paths it leaves out
--   Types              src/sema/type.h (Type, its factories and operator==) and the helpers at the
--                      head of src/sema/sema.cpp: Predicates, Conversion (integerPromotion to
--                      bitFieldWidthLimit) and Pointers (pointerBasesCompatible to
--                      conditionalPointerType); Spelling is typeToString
--   Qualifiers         src/sema/sema.cpp: validateTypeQualifiers; Rules has the rules it checks and the
--                      parts of a type
--   Scopes             src/sema/sema.h and sema.cpp: enterScope to declareVar, validateLabels, and the
--                      cases of checkStmt for Label and Go to
--   Mangling           src/codegen/mangling.cpp
--   Runtime            runtime/plainspeak_runtime.c, which compiled programs link to: Heap is its lists,
--                      with Shared the lists of values that they stand for; Arithmetic its operators;
--                      Printing print_inline and its callers
--   Tests              every result on concrete input
--
-- A pointer to a tree is the tree itself, with OptExpr where it may be null. A node's address,
-- which the compiler uses as a key, is the field address of Place. A std::string is a list of byte
-- values. The line numbers and the depth of comments of the tokenizer, ints in C, are unbounded
-- numbers, so a text has fewer than 2^31 lines and opening parentheses. A C long is an integer of
-- 64 bits: each operation wraps, so an overflow in a guard would show.
--
-- The limits of the integer ranks are those of a machine whose int has 32 bits and whose long has
-- 64.
--
-- The loop of Tokenizer::tokenize takes fuel, one unit for each character of the text, and
-- std::to_string one for each digit at most. What the tokenizer throws is a value; whether
-- std::stod has a double for the digits of a number is an argument, since it depends on the
-- floating-point library.
--
-- The rules of the parser take fuel for their nesting: with m tokens behind the first, 2 m + 2 for
-- expressions and m + 1 for statements. Each of its loops takes one unit for each token that is
-- left when it is entered. A ParseError is a value, with its line.
--
-- The sweep of ReturnPathChecker takes fuel, one unit for each node of the graph; it is shown that
-- this is enough.
--
-- A list of the runtime is a block in a heap, and a value that is a list is a pointer to it, so
-- that two values may share one. Each request to malloc and realloc is numbered and has a size in
-- bytes, taken modulo 2^64; whether it is granted is an argument. The operations on double are an
-- argument too. Division of longs is undefined for a divisor of 0 and where no long holds the
-- quotient, as in C. Printing takes fuel for the nesting of lists.
--
-- Where the source appends to a list of diagnostics, the model takes the list and gives it with
-- its own added; the maps of the source are lists of entries.
--
-- Not modelled: the resolution of type specifications, the inference of the types of expressions
-- and most of the statement checks of src/sema/sema.cpp, the emitter, the tree printer, and the
-- options, files and messages of the command line.
pub mod Prelude
pub mod Ast
pub mod Constants
pub mod Types
pub mod Scopes
pub mod Qualifiers
pub mod Runtime
pub mod Lexer
pub mod Parser
pub mod Driver
pub mod Mangling
pub mod ReturnPath
mod Tests
