-- ===== src/Lib.antt =====
-- surql-parser: tools around a parser for SurrealQL, and the migration engine overshift.
--
-- The parser itself (src/upstream) is a synchronised copy of SurrealDB's and is not modelled: what uses
-- it takes the lexer `lex` and the parser `parse_for_diagnostics` as parameters. Modelled is the
-- repository's own code around it.
--
-- - Params: `scan_params` of src/params.rs, the scan for `$param` tokens. `Params.scan` is the outer loop,
--   `Params.advance` and `Params.collect_param` are its arms, and each inner loop is a function from the
--   bytes behind its opening mark to the bytes at which the scan goes on. The fuel is one more than the
--   number of bytes, and each round takes a byte.
-- - Token: what a lexer hands out, the kinds that the clients tell apart and the order of spans.
-- - Recovery: src/recovery.rs, the parser that goes on behind errors. `split_into_chunks` cuts the source
--   at semicolons outside braces, `parse_chunk` parses one chunk, and `move` puts its diagnostics
--   (`ParseDiagnostic` of src/lib.rs) at their place in the document.
-- - Formatting: src/formatting.rs, the formatter over the tokens of the lexer, with `None` for a lexer
--   that panics. `Formatting.format_tokens` is the loop, one function for each of its arms, and
--   `finish_text` is what is behind it; Formatting.Config is `FormatConfig`.
-- - Schema: src/schema_graph.rs, the graph of tables, functions and parameters: its data (Schema.Model),
--   `merge`, `rebuild_field_index`, `scoped` and the lookups. The hash maps are association lists in the
--   order of their iteration, and every theorem holds for each such order. The
--   translation from the syntax tree and the output as Markdown are not modelled. Schema.Links has
--   `tables_referencing` and `siblings_of`, Schema.Reach is `tables_reachable_from` (one more unit of
--   fuel than there are links: each round takes a hop off the queue, and each hop but the first is put
--   there by a link), and Schema.Trees is `dependency_tree`, by recursion on the remaining depth.
-- - Diff: src/diff.rs, `compare_schemas` over two such graphs, with the sets ordered by the bytes of the
--   names. Diff.Display is its output as text, with the format strings written out.
-- - Overshift: overshift/src, the migration engine. Overshift.Db has the requests to the database, one
--   constructor for each query of the source, and the database that answers them: a parameter, any
--   function of the requests so far and the new one, so that it may fail at every step, be changed by
--   others, or let the lock expire. An action gives a result and the longer list of requests; an error
--   leaves the requests made. Overshift.Db.Keeps and Overshift.Db.Ensures have the rules for
--   what an action keeps and for what it ensures where it returns. Overshift.Lock is lock.rs,
--   Overshift.Apply is `Plan::apply` and `apply_inner` of plan.rs with `record_entry` of changelog.rs, Overshift.Planning is `plan` and
--   `read_applied` of plan.rs with `read_schema_checksums` of changelog.rs, Overshift.Rollback is
--   `rollback` of plan.rs, Overshift.Validate is `validate_functions` of validate.rs,
--   Overshift.DbInfo is `compare_db_info` of validate.rs over what it reads of two JSON values, and
--   Overshift.Builder is `ManifestBuilder` of manifest.rs,
--   Overshift.Modules is `topological_sort` of schema.rs (its fuel: the sum of the degrees and the number
--   of ready modules), and Overshift.Migration is the names and the sequence of migrations of migration.rs. The checksum and
--   the names of the functions of a script are parameters. Of the lock, only what the engine itself
--   sees is modelled: it counts as claimed from an attempt that is won to the next request to release it,
--   whether that request succeeds or not, and its expiry after 60 seconds is left to the database. Not
--   modelled: the file system, the feature
--   `shadow`, log output, the texts of errors, and the instance's identifier.
-- - Strings: the operations of `str` that the sources use, and the editing of a text line by line
--   (Strings.Edit), which the next two share.
-- - Mcp: mcp/src/file_ops.rs, the sorting of project files and `inject_overwrite`.
-- - Lint: src/lint.rs. Lint.Locations finds the place of a definition in the sources, Lint.Passes has
--   the five passes and `lint_schema`, and Lint itself `apply_fixes`.
-- - TypeCheck: macros/src/type_check.rs, `surql_type_matches_rust`: a Rust type is the text that the macro
--   makes of it. Each recursive call is on a shorter type, so that the fuel is one more than its length.
-- - Inference: macros/src/query_inference.rs, the tokenizer for queries (one unit of fuel more than there
--   are bytes: each round takes a byte) and, in Inference.Constraints, the types that the comparisons of
--   a query ask of its parameters. Inference.Written is the grammar of the queries that are read back.
-- - Files: src/filesystem.rs, the search for `.surql` files, over the tree of what the file system answers.
-- - Lsp: the language server. Lsp.Position is `position_to_byte_offset` of lsp/src/completion.rs and
--   `offset_to_line_col` of lsp/src/context.rs, Lsp.References and Lsp.Occurrences are the search for tables
--   in lsp/src/context.rs over the tokens of the lexer parameter, and Lsp.Embedded is lsp/src/embedded.rs
--   (one unit of fuel more than there are bytes: each round takes a byte).
-- - Signature: lsp/src/signature.rs, the splitting of parameters and the call around the cursor, the
--   latter over the reversed text.
--
-- A text is the list of its UTF-8 bytes; white space, case and
-- letters are those of ASCII. Line and column
-- numbers are natural numbers, a `u32` in a migration's name is bounded as in the source.
pub mod Prelude
pub mod Strings
pub mod Params
pub mod Token
pub mod Recovery
pub mod Files
pub mod Formatting
pub mod Schema
pub mod Diff
pub mod Overshift
pub mod Mcp
pub mod Lint
pub mod TypeCheck
pub mod Lsp
pub mod Inference
pub mod Signature
mod Tests
