-- ===== src/Tests/Tables.antt =====
-- Runs of the SQL and the routing key of src/storage/tierdb_table.cpp.
use tierdb_duckdb.Prelude.{text, ◌≡◌, refl, some, List, [], ◌∷◌, ◌++◌, map, arith}
use tierdb_duckdb.Outcome.{ok}
use tierdb_duckdb.Types.{varchar}
use tierdb_duckdb.Table.{TierDbRoutingColumn, quote_ident, column_sql, routing_columns}
use tierdb_duckdb.Table.Quote.{read_ident, read_ident-quote_ident}
use tierdb_duckdb.Table.Scan.{bind_data, row_id_columns}
use tierdb_duckdb.Table.RowIds.{column_sql-row_id_columns}
use tierdb_duckdb.Table.Virtual.{find_column, virtual_columns}
use tierdb_duckdb.Tests.Fixture.{platform}
use tierdb_duckdb.Tests.Sessions.{orders, pinned}

read_ident-quote_ident_example :
    read_ident (quote_ident (text "a\"b") ++ text ", ") ≡ some (text "a\"b", text ", ")
read_ident-quote_ident_example = read_ident-quote_ident (text "a\"b") (text ", ") (λ h. omega arith)

abbrev routing : List TierDbRoutingColumn
routing =
    record { virtual_id = 1001; name = text "id"; type = varchar }
    ∷ record { virtual_id = 1002; name = text "ts"; type = varchar }
    ∷ []

orders-routing : routing_columns platform orders ≡ ok routing
unfolding routing_columns
orders-routing = refl

column_sql-row_id_columns_example :
    map (column_sql (bind_data pinned orders routing)) (row_id_columns routing)
    ≡ map quote_ident (text "id" ∷ text "ts" ∷ [])
column_sql-row_id_columns_example =
    column_sql-row_id_columns platform pinned orders routing (omega arith) (omega arith)
      orders-routing

second_route :
    find_column 1002 (virtual_columns 2000 routing)
    ≡ some (record { name = text "__tierdb_route_1"; type = some varchar })
unfolding find_column virtual_columns tierdb_duckdb.Std.to_string
second_route = refl
