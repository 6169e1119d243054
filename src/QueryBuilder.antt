-- ===== src/QueryBuilder.antt =====
-- src/c_orm_query_builder.c: SQL text for SELECT and UPDATE, clause by clause.
pub mod Select
pub mod Update
