-- ===== src/Analyzer/Lexer.antt =====
-- The lexical passes of analyzer/redact.go and analyzer/fallback.go. A text `s` and an index `i`
-- of the source are `i` and the bytes `s[i:]`; a jump `i = j` of an outer loop is a bound, the
-- `until` of that loop, below which its steps only advance.
pub mod Chars
pub mod Space
pub mod Scan
pub mod Spans
pub mod Union
pub mod Redact
pub mod Comments
pub mod Fingerprint
pub mod Tokens
pub mod Cases
