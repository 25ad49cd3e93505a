-- ===== src/Tests.antt =====
-- Runs of the modelled code at concrete inputs, and the theorems at inputs that meet their premises.
mod Constants
mod ReturnPath
mod Types
mod Lexer
mod Qualifiers
mod Parser
mod Runtime
mod Scopes
mod Mangling
