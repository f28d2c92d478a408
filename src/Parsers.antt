-- ===== src/Parsers.antt =====
-- The parsers of one dialect: parsers/. The grammars of third parties are parameters.
pub mod Structure
pub mod Contract
pub mod Operands
pub mod Postgres
pub mod Mysql
pub mod Rules
