-- ===== src/Tests.antt =====
-- Tests on concrete input, and each theorem at an input that meets its hypotheses.
mod Lexing
mod Analysis
mod Runtime
mod Driver
mod Parsing
mod Plans
mod Configuring
mod Tables
mod Dialects
mod Commands
