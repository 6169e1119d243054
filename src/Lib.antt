-- ===== src/Lib.antt =====
-- c-orm is an object-relational mapper in C. This library models the string builder, the SELECT and
-- UPDATE builders on top of it, queries that are built as trees and turned into SQL, the arena that
-- holds them, the cache of prepared statements, the lexer and the parser of SQL table definitions,
-- the router that hands rows to generated code, and the parser of migration files.
--
-- How C is modelled (Memory). A function is a command: from a machine, which holds the allocator
-- and the object that the function works on, to a result, an error code with what was written
-- before it, or `stuck`, which stands for a loop that does not end, an access outside of an array,
-- or arithmetic that C leaves undefined. Which requests `malloc` and `realloc` meet is a parameter,
-- so a theorem holds for every allocator. A handle that may be NULL is an `Option`. Memory/Gives is
-- the predicate "this result, or the allocator has refused a request".
--
-- Parts of the program:
--   Meta: include/c_orm_meta.h, the table metadata that the SQL builders read, by index, since
--   relations may be cyclic.
--   StringBuilder: src/c_orm_string_builder.c. `buffer`, `size`, `capacity` and `valid` are the
--   fields of the struct; `init`, `append`, `get_text` and `get_length` are
--   `c_orm_string_builder_init`, `_append`, `_get` and `_len`. `append` is cut into `append_bytes`,
--   `append_valid`, `reserve` (the doubling loop is `grow`) and `write`. StringBuilder/Append is
--   about one append, StringBuilder/Emits about commands that append known texts one after the
--   other.
--   QueryBuilder/Select: the `c_orm_select_*` functions of src/c_orm_query_builder.c, by their
--   names. Select/Exists is `build_exists_query` and `c_orm_select_where_relation`; Exists/Route
--   says what a dotted path means, Exists/Relation and Exists/Unresolved what the function does on
--   a path that resolves and on one that does not. Select/Calls is a client, any sequence of
--   clause calls, with the statement that it stands for; Calls/Render compares the two.
--   QueryBuilder/Update: the `c_orm_update_*` functions of the same file, and a client of them.
--   Arena: src/c_orm_arena.c, the `c_orm_arena_*` functions. An address is a block and an offset in
--   it. Arena/Bounds is about one request, Arena/Apart about any sequence of them.
--   Query: include/c_orm_ast.h, the nodes of a query (Query/Ast), and src/c_orm_query_sql.c, the
--   growing array of parameters (Query/Params), `render_node` and `c_orm_query_to_sql` (Query/Sql,
--   with what they write in Query/Render and Query/Clauses). Query/Script says what a query stands
--   for: pieces of text and values, and the error that comes after them. Query/Rules, Query/Steps,
--   Query/Values, Query/Answers and Query/Matches put together what the commands write, and
--   Query/Correct compares the two.
--   Fluent: src/c_orm_query_fluent.c, which makes the nodes of expressions (Fluent/Expressions),
--   adds clauses to a query (Fluent/Methods) and copies it (Fluent/Clone), with memory from an
--   arena. Fluent/Calls is a client, any sequence of calls, with the nodes that it stands for;
--   Fluent/Calls/Statement goes on from there to the statement by way of Query/Correct, and
--   Fluent/Calls/Values is about what a driver is handed. Fluent/Escape reads string literals back,
--   Fluent/Errors is about calls on a query that has failed, Fluent/Lost about a condition that is
--   lost where a call fails, Fluent/Clone/Copies about copies.
--   StatementCache: src/c_orm_cache.c. The doubly linked list is a list, and the functions of the
--   driver are parameters. StatementCache/Entries is about lists of entries, /Exclusive about
--   `c_orm_prepare_cached`, /Crowded about a cache beyond its capacity, /Release about
--   `c_orm_finalize_cached`, /Leak about an eviction that fails.
--   Execute: `c_orm_query_execute` of src/c_orm_query_sql.c, which puts Query and StatementCache
--   together. Execute/Refine is about the script that it performs, Execute/Steps about what it
--   asks of the driver, call by call, Execute/Restore about what it leaves in use.
--   Sql/Token, Sql/Lexer: include/c_orm_sql.h and the lexer of src/c_orm_sql.c. A token, which
--   points into the source, holds its text here.
--   Sql/Ast, Sql/Parser: the parser of src/c_orm_sql.c. The state holds the tokens from the cursor
--   on. Sql/Parser/Constraint and Sql/Parser/Table are `sql_parse_column_constraint`,
--   `sql_parse_table_constraint` and `sql_parse_table`; Sql/Parser/Safe is about how far they read.
--   Sql/Ddl: `parse_sql_ddl`, which lexes a script and parses each statement of it.
--   Router: src/hydrate_router.c, the table from the hash of a query to the generated function that
--   fills a struct from a row. Router/Latest compares registrations with a map, Router/Answer is
--   about `cdd_c_hydrate_router_dispatch`.
--   Migration: src/migration.c, the split of a migration file into its UP and DOWN statements.
--   Base: shared names, Boolean tests, lists over the native numbers, `strchr`, `strstr`, `%d`.
--   Tests: concrete schemas and scripts.
--
-- Bounds and fuel. `size_t` has 64 bits and is written out modulo 2 ^ 64; struct sizes are those of
-- a 64-bit platform. `grow` has 65 rounds: a capacity that has doubled 64 times is 0 modulo
-- 2 ^ 64, and the C loop then never ends. `build_exists` has one more round than the path has
-- bytes; `lex_loop` one more than the source; the loops of the parser one more than the tokens that
-- are left, and every round of them takes a token. `render_node` and `c_orm_query_to_sql` are
-- recursive on the tree; `max_depth`, the global `cdd_c_sql_parser_max_depth`, is an argument.
--
-- Not modelled: the hooks of the test allocator, logging, out parameters that are NULL, the insert
-- builder (it returns C_ORM_ERROR_NOT_IMPLEMENTED), `c_orm_select_where_in_array` (a call of
-- `c_orm_select_where_in`), `sql_parse_select` and `sql_parse_returning` (stubs), the functions
-- that free a parsed table, the two functions that fetch the rows of a query tree, `eager_load`,
-- the mutex of the statement cache, `az_span` (a library's; the span of a string is its bytes), and
-- the rest of the program: drivers, the CRUD layer, running migrations, code generators and the
-- command line.
-- A query that another one holds is a value, which no one changes after it has been handed over.
-- Freeing is not tracked but for the entries of the statement cache, so nothing is said about leaks.
pub mod Base
pub mod Memory
pub mod Meta
pub mod StringBuilder
pub mod QueryBuilder
pub mod Sql
pub mod Arena
pub mod Fluent
pub mod Query
pub mod Router
pub mod StatementCache
pub mod Execute
pub mod Migration
mod Tests
