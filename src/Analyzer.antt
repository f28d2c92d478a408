-- ===== src/Analyzer.antt =====
-- The analyzer: analyzer/.
pub mod Types
pub mod Lexer
pub mod Settings
pub mod Rules
pub mod Registry
pub mod Suppress
pub mod Pattern
pub mod Fallback
pub mod Dialects
pub mod Engine
