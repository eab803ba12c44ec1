-- ===== src/Tests/Counted.antt =====
-- Statements on a Rust side that counts rows, and on a yyjson that writes nothing: src/storage/tierdb_insert.cpp.
use tierdb_duckdb.Prelude.{
  ℕ, zero, suc, ◌+◌, ◌^◌, ◌<◌, ℤ, pos, Text, text, ◌≡◌, refl, sym, ap, ◌∙◌, ◌≢◌, Bool, false,
  Option, none, some, List, [], ◌∷◌, length, All, arith, if◌then◌else◌, ◌==◌,
}
use tierdb_duckdb.Outcome.{ok}
use tierdb_duckdb.Platform.{Platform, Yyjson, Json, field, end, done}
use tierdb_duckdb.Ffi.{World, into_c_string, has_nul, c_str}
use tierdb_duckdb.Ffi.Entry.{on_conn}
use tierdb_duckdb.Client.{TierDbClient}
use tierdb_duckdb.Client.Data.{TierDbDmlResult}
use tierdb_duckdb.Client.Decode.{decode_dml_result}
use tierdb_duckdb.Client.Served.{insert_chunk-answer}
use tierdb_duckdb.LakeDml.Accepted.{LakeAccepted}
use tierdb_duckdb.Conn.{txn_begin}
use tierdb_duckdb.Transaction.{Session, new_transaction}
use tierdb_duckdb.Value.{Value, bigint}
use tierdb_duckdb.Types.{varchar}
use tierdb_duckdb.Schema.{TableEntry}
use tierdb_duckdb.Sink.{Statement}
use tierdb_duckdb.Sink.Payload.{insert_rows}
use tierdb_duckdb.Sink.Calls.{Sent}
use tierdb_duckdb.Sink.Documents.{insert_rows_lem}
use tierdb_duckdb.Operators.Run.{Operator, inserts, run_operator, sink}
use tierdb_duckdb.Operators.Shape.{count_items, IsReady, write_document, call_of, send_call}
use tierdb_duckdb.Operators.Total.{Counting, CountsRows, run_operator-counts}
use tierdb_duckdb.Operators.Progress.{IsServed, run_operator_returns}
use tierdb_duckdb.Operators.Lost.{CountsNone, refused_chunk_lost}
use tierdb_duckdb.Tests.Fixture.{platform, yyjson, postgres, batch_execute}
use tierdb_duckdb.Tests.Sessions.{orders}
use tierdb_duckdb.Tests.Rows.{rows, names, inserted}

-- A text of `n` bytes.
abbrev pub marks : ℕ → Text
marks zero = []
marks (suc n) = b'r' ∷ marks n

abbrev pub count_of : Json → ℕ
count_of (Json.arr js) = count_items js
count_of _ = 0

abbrev counted : ℕ → Json
counted n = Json.obj (field (text "count") (Json.uint n) end)

abbrev counting_yyjson : Yyjson
counting_yyjson = record yyjson {
  read = λ s. some (counted (length s));
  write = λ doc. some (marks (count_of doc));
}

-- A Rust side that answers with the rows that it was given.
abbrev counting_platform : Platform
counting_platform = record platform {
  yyjson = counting_yyjson;
  insert_chunk = λ k s t json st. (done json, st);
  delete_chunk = λ k s t json st. (done json, st);
  update_chunk = λ k s t json st. (done json, st);
}

pub c_str-marks : (n : ℕ) → c_str (marks n) ≡ marks n
unfolding c_str
c_str-marks zero = refl
c_str-marks (suc n) = ap (λ t. b'r' ∷ t) (c_str-marks n)

has_nul-marks : (n : ℕ) → has_nul (marks n) ≡ false
unfolding has_nul
has_nul-marks zero = refl
has_nul-marks (suc n) = has_nul-marks n

pub length-marks : (n : ℕ) → length (marks n) ≡ n
length-marks zero = refl
length-marks (suc n) = ap suc (length-marks n)

pub into_c_string-marks : (n : ℕ) → into_c_string (marks n) ≡ marks n
unfolding into_c_string
into_c_string-marks n = rw (has_nul-marks n) refl

count-counted : (n : ℕ) → (decode_dml_result counting_yyjson (counted n)).count ≡ pos n
unfolding decode_dml_result tierdb_duckdb.Tests.Fixture.obj_get tierdb_duckdb.Prelude.text_eq
    tierdb_duckdb.Tests.Fixture.get_sint
count-counted n = refl

counts_rows : CountsRows counting_platform (λ k s t json st. (done json, st))
counts_rows k s t json answer js root st w e r =
    let n = count_items js in
    let a : answer ≡ marks n = cc (c_str-marks n) in
    let q : root ≡ counted (length (into_c_string answer)) = cc in
    let l : length (into_c_string answer) ≡ n =
      ap (λ t. length (into_c_string t)) a ∙ ap length (into_c_string-marks n) ∙ length-marks n in
    ap (λ j. (decode_dml_result counting_yyjson j).count) q
    ∙ count-counted (length (into_c_string answer))
    ∙ ap pos l

counting : Counting counting_platform
counting = record { inserted = counts_rows; deleted = counts_rows; updated = counts_rows }

abbrev counting_client : TierDbClient counting_platform
counting_client = record { conn = some tt }

begin_accepted :
    (st : counting_platform.State)
    → (on_conn counting_platform.txn_begin counting_client.conn st).0 ≡ done tt
unfolding on_conn txn_begin batch_execute tierdb_duckdb.Prelude.text_eq
begin_accepted st = ground arith

-- The answers have no lake part.
no_lake :
    (n : ℕ) (w : World counting_platform)
    → let result = decode_dml_result counting_yyjson (counted n) in
      LakeAccepted result.attach_sql result.lake_sql w
unfolding decode_dml_result tierdb_duckdb.Tests.Fixture.obj_get tierdb_duckdb.Prelude.text_eq
    tierdb_duckdb.Tests.Fixture.get_str tierdb_duckdb.Tests.Fixture.elements
no_lake n w = tt

abbrev orders_table : TableEntry
orders_table = record {
  columns = (text "id", varchar) ∷ (text "ts", varchar) ∷ [];
  tierdb_schema = orders;
}

abbrev insert_orders : Operator
insert_orders = inserts (record { table = orders_table; column_names = names })

rows-IsReady : IsReady counting_platform insert_orders rows
rows-IsReady = record {
  fed = refl;
  json = marks 2;
  is_written = ap (write_document counting_platform) (insert_rows_lem rows names refl);
}

served :
    (json : Text) (σ : Session counting_platform) → IsServed counting_client insert_orders json σ
unfolding on_conn
served json σ = record {
  begins = λ h. (tt, begin_accepted σ.world.outside);
  answer = c_str json;
  root = counted (length (into_c_string (c_str json)));
  answered = refl;
  parsed = refl;
  lake = no_lake _ _;
}

abbrev fresh_session : Session counting_platform
fresh_session = record {
  txn = new_transaction;
  world = record {
    outside = record {
      client = record { log = []; refuses = false };
      dsn = text "host=db";
      in_txn = false;
    };
    heap = record { live = []; next = 0 };
    history = [];
  };
}

run_operator_returns_example :
    (run_operator counting_client insert_orders (rows ∷ rows ∷ []) fresh_session).0
    ≡ ok (Value.signed bigint (pos 4) ∷ [])
run_operator_returns_example =
    run_operator_returns counting_client counting insert_orders (rows ∷ rows ∷ []) fresh_session
      (rows-IsReady, (rows-IsReady, tt)) ((λ h. served _ _), ((λ h. served _ _), tt)) (omega arith)

four_inserted :
    (run_operator counting_client insert_orders (rows ∷ rows ∷ []) fresh_session).0
    ≡ ok (Value.signed bigint (pos 4) ∷ [])
four_inserted =
    run_operator_returns counting_client counting insert_orders (rows ∷ rows ∷ []) fresh_session
      (rows-IsReady, (rows-IsReady, tt)) ((λ h. served _ _), ((λ h. served _ _), tt)) (omega arith)

run_operator-counts_example :
    (4 < 2 ^ 63) × (Value.signed bigint (pos 4) ∷ [] ≡ Value.signed bigint (pos 4) ∷ [])
run_operator-counts_example =
    run_operator-counts counting counting_client insert_orders (rows ∷ rows ∷ []) fresh_session
      (Value.signed bigint (pos 4) ∷ []) (rows-IsReady, (rows-IsReady, tt)) (omega arith)
      four_inserted

-- A yyjson that refuses each document, and a Rust side that finds no row in what it is given.
abbrev refusing_platform : Platform
refusing_platform = record counting_platform {
  yyjson = record yyjson { read = λ s. some (counted 0); write = λ doc. none };
}

abbrev refusing_client : TierDbClient refusing_platform
refusing_client = record { conn = some tt }

none_counted : (decode_dml_result refusing_platform.yyjson (counted 0)).count ≡ pos 0
unfolding decode_dml_result tierdb_duckdb.Tests.Fixture.obj_get tierdb_duckdb.Prelude.text_eq
    tierdb_duckdb.Tests.Fixture.get_sint
none_counted = refl

counts_none : CountsNone refusing_client insert_orders
unfolding on_conn decode_dml_result tierdb_duckdb.Tests.Fixture.obj_get
    tierdb_duckdb.Prelude.text_eq
counts_none w result h =
    let q : decode_dml_result refusing_platform.yyjson (counted 0) ≡ result =
      cc (insert_chunk-answer refusing_client (text "public") (text "orders") (text "[]") w) in
    ap (λ (r : TierDbDmlResult). r.count) (sym q) ∙ none_counted

abbrev refused_statement : Statement refusing_platform
refused_statement = record {
  session = record {
    txn = new_transaction;
    world = record {
      outside = record {
        client = record { log = []; refuses = false };
        dsn = text "host=db";
        in_txn = false;
      };
      heap = record { live = []; next = 0 };
      history = [];
    };
  };
  count = 5;
}

refused_returns : (sink refusing_client insert_orders rows refused_statement).0 ≡ ok tt
unfolding sink insert_rows tierdb_duckdb.Transaction.ensure_write_txn tierdb_duckdb.Client.txn_begin
    tierdb_duckdb.Ffi.Entry.tierdb_txn_begin txn_begin batch_execute
    tierdb_duckdb.Client.insert_chunk tierdb_duckdb.Ffi.Entry.tierdb_insert_chunk
    tierdb_duckdb.Ffi.string_at tierdb_duckdb.Ffi.Strings.load tierdb_duckdb.Ffi.Strings.alloc
    tierdb_duckdb.Ffi.tierdb_free_string tierdb_duckdb.Ffi.Strings.release
    tierdb_duckdb.LakeDml.execute_lake_dml decode_dml_result tierdb_duckdb.Tests.Fixture.obj_get
    tierdb_duckdb.Tests.Fixture.get_str tierdb_duckdb.Tests.Fixture.get_sint
    tierdb_duckdb.Tests.Fixture.elements tierdb_duckdb.Prelude.text_eq into_c_string
refused_returns = refl

refused_chunk_lost_example :
    Sent refusing_client
      (send_call refusing_client insert_orders (text "[]"))
      (call_of insert_orders (text "[]"))
      refused_statement
      (sink refusing_client insert_orders rows refused_statement).1
    × ((sink refusing_client insert_orders rows refused_statement).1.count ≡ 5)
refused_chunk_lost_example =
    refused_chunk_lost refusing_client insert_orders rows inserted refused_statement (omega arith)
      (insert_rows_lem rows names refl) refl counts_none (omega arith) refused_returns
