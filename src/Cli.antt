-- ===== src/Cli.antt =====
-- The command line: cmd/sqlguard/. Go's parser, its type checker and its package loader, the file
-- system and the databases are parameters.
pub mod Paths
pub mod Format
pub mod Source
pub mod Comments
pub mod Scan
pub mod Report
pub mod Run
pub mod Explain
