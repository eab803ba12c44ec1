-- ===== src/Tests/Rows.antt =====
-- Runs of the lake statements and the sinks: src/storage/tierdb_client.cpp,
-- src/storage/tierdb_insert.cpp, src/storage/tierdb_delete.cpp and src/storage/tierdb_update.cpp.
use tierdb_duckdb.Prelude.{
  ℕ, suc, ◌+◌, ◌-◌, ◌≤◌, ◌<◌, ℤ, pos, Text, text, ◌≡◌, refl, ◌≢◌, Bool, true, false, Option, none,
  some, List, [], ◌∷◌, ◌++◌, arith, if◌then◌else◌,
}
use tierdb_duckdb.Outcome.{Outcome, ok}
use tierdb_duckdb.Platform.{Json}
use tierdb_duckdb.Ffi
use tierdb_duckdb.Ffi.{World}
use tierdb_duckdb.Client
use tierdb_duckdb.Client.{TierDbClient}
use tierdb_duckdb.Client.Data.{TierDbDmlResult}
use tierdb_duckdb.Client.Served.{io_error}
use tierdb_duckdb.LakeDml.{execute_lake_dml, run_statements}
use tierdb_duckdb.LakeDml.Order.{Ran, Executed, run_statements-Executed, execute_lake_dml_returns}
use tierdb_duckdb.Transaction.{ensure_write_txn}
use tierdb_duckdb.Value.{Value}
use tierdb_duckdb.Sink.{Statement, unless_empty, send_rows, insert_sink}
use tierdb_duckdb.Sink.Payload.{DataChunk, insert_rows}
use tierdb_duckdb.Sink.Rows.{items_from, object_of, consecutive}
use tierdb_duckdb.Sink.Documents.{row_of, insert_rows_lem}
use tierdb_duckdb.Sink.Count.{send_rows_uncounted}
use tierdb_duckdb.Tests.Fixture.{platform, postgres, runs}
use tierdb_duckdb.Tests.Sessions.{client, world, idle, orders}

abbrev two_statements : TierDbDmlResult
two_statements = record {
  count = pos 2;
  attach_sql = text "ATTACH";
  lake_sql = text "DELETE" ∷ text "INSERT" ∷ [];
}

run_statements-Executed_example :
    let sqls = text "DELETE" ∷ text "INSERT" ∷ [] in
    let (r, w) = run_statements tt sqls (world false true) in Executed sqls (world false true) r w
run_statements-Executed_example =
    run_statements-Executed tt (text "DELETE" ∷ text "INSERT" ∷ []) (world false true)

two_statements_run : (execute_lake_dml two_statements (world false true)).0 ≡ ok tt
unfolding execute_lake_dml
two_statements_run = refl

execute_lake_dml_returns_example :
    Ran two_statements.lake_sql two_statements.attach_sql
      (world false true)
      (execute_lake_dml two_statements (world false true)).1
execute_lake_dml_returns_example =
    execute_lake_dml_returns two_statements (world false true) two_statements_run

-- Two rows of two columns.
abbrev pub rows : DataChunk
rows = record { column_count = 2; size = 2; get_value = λ col row. Value.other (text "v") }

abbrev pub names : List Text
names = text "id" ∷ text "ts" ∷ []

insert_rows_lem_example :
    insert_rows rows names
    ≡ some (
        Json.arr
          (items_from (λ row. Json.obj (object_of (consecutive (row_of rows row) 0 names))) 2 0))
insert_rows_lem_example = insert_rows_lem rows names refl

abbrev pub statement : Statement platform
statement = record { session = idle; count = 5 }

abbrev pub inserted : Json
inserted =
    Json.arr (items_from (λ row. Json.obj (object_of (consecutive (row_of rows row) 0 names))) 2 0)

pub insert_runs : (insert_sink client orders names rows statement).0 ≡ ok tt
unfolding insert_sink insert_rows ensure_write_txn Client.txn_begin
    tierdb_duckdb.Ffi.Entry.tierdb_txn_begin tierdb_duckdb.Conn.txn_begin
    tierdb_duckdb.Tests.Fixture.batch_execute Client.insert_chunk
    tierdb_duckdb.Ffi.Entry.tierdb_insert_chunk Ffi.string_at tierdb_duckdb.Ffi.Strings.load
    tierdb_duckdb.Ffi.Strings.alloc tierdb_duckdb.Tests.Fixture.read tierdb_duckdb.Prelude.text_eq
    Ffi.into_c_string Ffi.tierdb_free_string tierdb_duckdb.Ffi.Strings.release execute_lake_dml
    tierdb_duckdb.Client.Decode.decode_dml_result tierdb_duckdb.Tests.Fixture.obj_get
    tierdb_duckdb.Tests.Fixture.elements tierdb_duckdb.Tests.Fixture.get_str
    tierdb_duckdb.Tests.Fixture.get_sint
insert_runs = refl

-- A client whose connection is gone.
abbrev gone : TierDbClient platform
gone = record { conn = none }

abbrev failing : Outcome (Unit {0}) × Statement platform
failing =
    unless_empty 2
      (send_rows gone (Client.insert_chunk gone (text "public") (text "orders")) (some inserted))
      statement

failing_error : failing.0 ≡ io_error (text "tierdb: connection pointer was null")
unfolding unless_empty send_rows ensure_write_txn Client.txn_begin
    tierdb_duckdb.Ffi.Entry.tierdb_txn_begin Ffi.string_at tierdb_duckdb.Ffi.Strings.load
    tierdb_duckdb.Ffi.Strings.alloc Ffi.tierdb_free_string tierdb_duckdb.Ffi.Strings.release
    Ffi.into_c_string
failing_error = refl

failing_throws : failing.0 ≢ ok tt
failing_throws = λ h. let e = failing_error in cc

send_rows_uncounted_example : failing.1.count ≡ 5
send_rows_uncounted_example =
    send_rows_uncounted gone (Client.insert_chunk gone (text "public") (text "orders")) 2
      (some inserted) statement failing_throws
