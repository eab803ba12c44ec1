-- ===== src/Operators/Lost.antt =====
-- A chunk whose document yyjson refuses to write, in src/storage/tierdb_insert.cpp, src/storage/tierdb_delete.cpp and
-- src/storage/tierdb_update.cpp.
use tierdb_duckdb.Prelude.{◌<◌, pos, text, ◌≡◌, ◌∙◌, ◌≢◌, none, some, arith}
use tierdb_duckdb.Outcome.{ok}
use tierdb_duckdb.Platform.{Platform, Json}
use tierdb_duckdb.Ffi.{World}
use tierdb_duckdb.Client.{TierDbClient}
use tierdb_duckdb.Client.Data.{TierDbDmlResult}
use tierdb_duckdb.Std.{size_max}
use tierdb_duckdb.Sink.{Statement, send_rows}
use tierdb_duckdb.Sink.Payload.{DataChunk, written}
use tierdb_duckdb.Sink.Calls.{Sent, chained, sized}
use tierdb_duckdb.Operators.Run.{Operator, sink}
use tierdb_duckdb.Operators.Shape.{document, send_call, call_of, sink_lem, sink-Sent}
use tierdb_duckdb.Operators.Total.{add_count-keeps}

module _ {x : Platform} (c : TierDbClient x) (op : Operator) where
  -- The Rust side counts no row in the empty array.
  abbrev pub CountsNone : Type 0
  CountsNone =
      (w : World x) (result : TierDbDmlResult)
      → (send_call c op (text "[]") w).0 ≡ ok result
      → result.count ≡ pos 0

  refused_count :
      (doc : Json) (s : Statement x)
      → x.yyjson.write doc ≡ none
      → CountsNone
      → s.count < size_max
      → (send_rows c (send_call c op) (some doc) s).0 ≡ ok tt
      → (send_rows c (send_call c op) (some doc) s).1.count ≡ s.count
  unfolding written
  refused_count doc s e counts l h =
      let (result, a, b, (d, f, g)) = chained c (send_call c op) doc s h in
      rw g (add_count-keeps 0 result.count _ (counts _ result (rw e at b)) ∙ omega (arith, l))

  -- Where yyjson does not write the document of a chunk with rows, the operator sends the empty array in
  -- place of the rows. If that call is answered as it counts, with no row, then the sink may return
  -- all the same, and its count is what it was: the rows of the chunk are lost without an error.
  pub refused_chunk_lost :
      (chunk : DataChunk) (doc : Json) (s : Statement x)
      → chunk.size ≢ 0
      → document op chunk ≡ some doc
      → x.yyjson.write doc ≡ none
      → CountsNone
      → s.count < size_max
      → (sink c op chunk s).0 ≡ ok tt
      → Sent c (send_call c op (text "[]")) (call_of op (text "[]")) s (sink c op chunk s).1
        × ((sink c op chunk s).1.count ≡ s.count)
  unfolding written
  refused_chunk_lost chunk doc s n e r counts l h =
      let sent = sink-Sent c op chunk doc s n e h in
      (
        rw r at sent,
        rw (sink_lem c op chunk, e, sized chunk.size (send_rows c (send_call c op) (some doc)) s n)
            (refused_count doc s r counts l (
              rw
                (
                  sink_lem c op chunk,
                  e,
                  sized chunk.size (send_rows c (send_call c op) (some doc)) s n,
                )
                at h)),
      )
