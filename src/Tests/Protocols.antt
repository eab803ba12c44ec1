-- ===== src/Tests/Protocols.antt =====
-- Whole transactions, their end, scans, plans and ATTACH at concrete inputs.
use tierdb_duckdb.Prelude.{
  ℕ, zero, suc, ◌+◌, ◌<◌, pos, Text, text, ◌≡◌, refl, ◌≢◌, Bool, true, false, Option, none, some,
  List, [], ◌∷◌, map, length, get_elem?, arith,
}
use tierdb_duckdb.Outcome.{ok}
use tierdb_duckdb.Client.Data.{TierDbTableSchema}
use tierdb_duckdb.Types.{varchar}
use tierdb_duckdb.Planner.{LogicalUpdate, PhysicalTierDbUpdate, plan_update}
use tierdb_duckdb.Planner.Bind.{Binds, bind_update_constraints, bound_update_covers}
use tierdb_duckdb.Catalog.Attach.{automatic, tierdb_attach, attached, tierdb_attach_lem}
use tierdb_duckdb.Ffi
use tierdb_duckdb.Transaction.{Session}
use tierdb_duckdb.Transaction.Writes.{commits}
use tierdb_duckdb.Sink.{Statement}
use tierdb_duckdb.Sink.Calls.{Sent}
use tierdb_duckdb.Sink.Documents.{insert_rows_lem}
use tierdb_duckdb.Operators.Run.{Operator, inserts, sink}
use tierdb_duckdb.Operators.Shape.{call_of, send_call, sink-Sent}
use tierdb_duckdb.Protocol.{
  Run, view, active, closing, Action, reads, writes, act_all, finish, begin,
}
use tierdb_duckdb.Protocol.Refines.{transaction_refines}
use tierdb_duckdb.Tests.Fixture.{platform, postgres, string_util}
use tierdb_duckdb.Tests.Sessions.{client, world, orders}
use tierdb_duckdb.Tests.Rows.{rows, names, inserted, statement, insert_runs}

abbrev insert_orders : Operator
insert_orders = inserts (record {
  table = record {
    columns = (text "id", varchar) ∷ (text "ts", varchar) ∷ [];
    tierdb_schema = orders;
  };
  column_names = names;
})

abbrev actions : List Action
actions = writes insert_orders (rows ∷ []) ∷ reads orders (0 ∷ []) ∷ []

transaction_refines_example :
    Run client
      (active false [])
      (view (world false false))
      (closing commits [])
      (view (finish client commits (act_all client actions (begin (world false false)))).world)
transaction_refines_example = transaction_refines client actions commits (world false false)

-- The session of an insertion and a read.
abbrev served_session : Session platform
served_session = act_all client actions (begin (world false false))

sent_by_insert : (sink client insert_orders rows statement).0 ≡ ok tt
unfolding sink
sent_by_insert = insert_runs

sink-Sent_example :
    Sent client
      (send_call client insert_orders (text "[{}]"))
      (call_of insert_orders (text "[{}]"))
      statement
      (sink client insert_orders rows statement).1
unfolding tierdb_duckdb.Sink.Payload.written
sink-Sent_example =
    sink-Sent client insert_orders rows inserted statement (omega arith)
      (insert_rows_lem rows names refl) sent_by_insert

-- The table `orders` with its columns, and a binder that takes every bound column.
abbrev wide_orders : TierDbTableSchema
wide_orders = record orders {
  columns =
      record { name = text "id"; pg_type = text "text"; duckdb_type = text "VARCHAR" }
      ∷ record { name = text "ts"; pg_type = text "text"; duckdb_type = text "VARCHAR" }
      ∷ [];
}

abbrev take_all : List ℕ → LogicalUpdate → LogicalUpdate
take_all bound update = record update { columns = bound; expressions = bound }

take_all-Binds : Binds take_all
take_all-Binds = record { covers = λ bound update c cs m k i u a b. (k, b) }

abbrev update_ts : LogicalUpdate
update_ts = record { return_chunk = false; expressions = 0 ∷ []; columns = 1 ∷ [] }

abbrev update_plan : PhysicalTierDbUpdate
update_plan = record {
  new_value_indexes = 0 ∷ 1 ∷ [];
  new_col_names = text "id" ∷ text "ts" ∷ [];
  old_key_names = text "id" ∷ text "ts" ∷ [];
}

update_planned :
    plan_update platform wide_orders (bind_update_constraints take_all wide_orders update_ts).update
    ≡ ok update_plan
unfolding plan_update bind_update_constraints tierdb_duckdb.Prelude.text_eq
    tierdb_duckdb.Tests.Fixture.ends_with tierdb_duckdb.Tests.Fixture.starts_with
    tierdb_duckdb.Tests.Fixture.to_upper
update_planned = refl

bound_update_covers_example :
    (j e : ℕ) × (get_elem? update_plan.new_col_names j ≡ some (text "id"))
    × (get_elem? update_plan.new_value_indexes j ≡ some e)
bound_update_covers_example =
    bound_update_covers platform wide_orders take_all update_ts update_plan 1 [] 0 (text "id")
      take_all-Binds refl (omega arith) update_planned refl

-- An option `dsn` in place of the path, on a client that connects.
tierdb_attach_lem_example :
    tierdb_attach (text "") ((text "DSN", text "host=db") ∷ []) automatic (world false false)
    ≡ attached automatic (ok (text "host=db")) (world false false)
unfolding tierdb_duckdb.Prelude.text_eq tierdb_duckdb.Tests.Fixture.to_lower
tierdb_attach_lem_example =
    tierdb_attach_lem (text "") ((text "DSN", text "host=db") ∷ []) automatic (world false false)
