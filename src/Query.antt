-- ===== src/Query.antt =====
-- Queries as trees: include/c_orm_ast.h, and src/c_orm_query_sql.c, which turns them into SQL.
pub mod Ast
pub mod Params
pub mod Render
pub mod Clauses
pub mod Sql
pub mod Script
pub mod Rules
pub mod Steps
pub mod Values
pub mod Answers
pub mod Correct
pub mod Matches
