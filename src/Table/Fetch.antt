-- ===== src/Table/Fetch.antt =====
-- The fetch of a scan in src/storage/tierdb_table.cpp: `TierDBScanExecute`, which DuckDB's executor calls until the output is
-- empty.
use tierdb_duckdb.Prelude.{
  ℕ, zero, suc, ◌<◌, ◌≡◌, refl, ◌≢◌, Option, none, some, List, [], ◌∷◌, length, ◌==◌, arith,
  if◌then◌else◌,
}

-- `TierDBScanGlobalState`: the result that is read on, by one thread at most.
pub record TierDbScanGlobalState (QueryResult : Type 0) : Type 0 where
  pub result : QueryResult

abbrev pub max_threads : ℕ
max_threads = 1

-- `QueryResult::Fetch` and `DataChunk::size` are DuckDB's.
module _ {QueryResult Chunk : Type 0} (fetch : QueryResult → Option Chunk × QueryResult)
    (size : Chunk → ℕ) where
  -- `if (!chunk || chunk->size() == 0) { return; } output.Move(*chunk);`, where `none` is an output that
  -- stays empty.
  moved : Option Chunk → Option Chunk
  moved none = none
  moved (some chunk) = if size chunk == 0 then none else some chunk

  -- `TierDBScanExecute`
  unfoldable pub scan_execute :
      TierDbScanGlobalState QueryResult → Option Chunk × TierDbScanGlobalState QueryResult
  unfolding moved
  scan_execute state =
      let (chunk, result) = fetch state.result in (moved chunk, record { result = result })

  -- The executor, with `fuel` for its calls; `none` has not come to the end.
  prepend : Option Chunk → Option (List Chunk) → Option (List Chunk)
  prepend none rest = some []
  prepend (some chunk) none = none
  prepend (some chunk) (some rest) = some (chunk ∷ rest)

  unfoldable pub scan_all : ℕ → TierDbScanGlobalState QueryResult → Option (List Chunk)
  unfolding prepend scan_execute
  scan_all zero state = none
  scan_all (suc fuel) state =
      let (chunk, next) = scan_execute state in let rest = scan_all fuel next in prepend chunk rest

  -- What a result has to give: its chunks up to the end or to an empty one.
  pub data Yields : QueryResult → List Chunk → Type 0 where
    ended : {r : QueryResult} → (fetch r).0 ≡ none → Yields r []
    emptied : {r : QueryResult} {c : Chunk} → (fetch r).0 ≡ some c → size c ≡ 0 → Yields r []
    yields :
        {r : QueryResult} {c : Chunk} {cs : List Chunk}
        → (fetch r).0 ≡ some c
        → size c ≢ 0
        → Yields (fetch r).1 cs
        → Yields r (c ∷ cs)

  moved-empty : (c : Chunk) → size c ≡ 0 → moved (some c) ≡ none
  unfolding moved
  moved-empty c h = ground arith

  moved-rows : (c : Chunk) → size c ≢ 0 → moved (some c) ≡ some c
  unfolding moved
  moved-rows c h = ground arith

  -- A scan comes to its end within one call more than its result has chunks, however much fuel there is
  -- beyond, and outputs every chunk once and in order.
  pub scan_all-Yields :
      (fuel : ℕ) (state : TierDbScanGlobalState QueryResult) (chunks : List Chunk)
      → Yields state.result chunks
      → length chunks < fuel
      → scan_all fuel state ≡ some chunks
  unfolding scan_all scan_execute prepend
  scan_all-Yields zero state chunks y l = absurd (omega arith)
  scan_all-Yields (suc fuel) state [] (ended e) l = rw (e, moved)
  scan_all-Yields (suc fuel) state [] (emptied {c = c} e z) l = rw (e, moved-empty c z) refl
  scan_all-Yields (suc fuel) state (c ∷ cs) (yields e z y) l =
      rw
        (
          e,
          moved-rows c z,
          scan_all-Yields fuel (record { result = (fetch state.result).1 }) cs y (omega arith),
        )
        refl
