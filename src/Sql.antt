-- ===== src/Sql.antt =====
-- src/c_orm_sql.c: the lexer and the parser of SQL table definitions.
pub mod Token
pub mod Lexer
pub mod Ast
pub mod Ddl
pub mod Parser
