-- ===== src/LakeDml/Retry.antt =====
-- How often `TierDBExecuteLakeDml` of src/storage/tierdb_client.cpp runs a lake statement, and in which order.
use tierdb_duckdb.Prelude.{
  ℕ, zero, suc, ◌+◌, ◌≤◌, Text, text, ◌≡◌, refl, ap, ◌∙◌, ◌⊎◌, inl, inr, false, not, ◌||◌, List,
  ◌∷◌, ◌++◌, arith, leb, Bool-cases,
}
use tierdb_duckdb.Outcome.{Exception, Outcome, ok, throw, io_exception}
use tierdb_duckdb.Platform.{Platform, Reply, done, failed}
use tierdb_duckdb.Ffi
use tierdb_duckdb.Ffi.{Call, World}
use tierdb_duckdb.LakeDml.{max_attempts, is_conflict, run_query, after_query, attempts}

-- `n` runs of one statement on top of a history.
abbrev pub repeated : ℕ → Text → List Call → List Call
repeated zero sql h = h
repeated (suc n) sql h = repeated n sql (Ffi.query sql ∷ h)

abbrev pub lake_error : Text → Exception
lake_error e = record { kind = io_exception; message = text "tierdb: lake write failed: " ++ e }

-- How the run of one statement ended: after at most `most` queries of it and no other call, either it
-- was accepted or an error of DuckDB left as an exception.
pub record Tried {x : Platform} (most : ℕ) (sql : Text) (w : World x) (r : Outcome (Unit {0}))
    (w' : World x) : Type 0 where
  pub rounds : ℕ
  pub at_least : 1 ≤ rounds
  pub at_most : rounds ≤ most
  pub history : w'.history ≡ repeated rounds sql w.history
  pub heap : w'.heap ≡ w.heap
  pub ending : (r ≡ ok tt) ⊎ ((e : Text) × (r ≡ throw (lake_error e)))

module _ {x : Platform} (con : x.Connection) where
  -- The world after one query.
  abbrev queried : Text → World x → World x
  queried sql w = record w {
    outside = (x.query con sql w.outside).1;
    history = Ffi.query sql ∷ w.history;
  }

  Tried-again :
      (left : ℕ) (sql : Text) {w v w' : World x} {r : Outcome (Unit {0})}
      → v.history ≡ Ffi.query sql ∷ w.history
      → v.heap ≡ w.heap
      → Tried left sql v r w'
      → Tried (suc left) sql w r w'
  Tried-again left sql h m t = record {
    rounds = suc t.rounds;
    at_least = omega arith;
    at_most = omega (arith, t.at_most);
    history = t.history ∙ ap (repeated t.rounds sql) h;
    heap = t.heap ∙ m;
    ending = t.ending;
  }

  -- One round on the reply `r`, whose world is `v`; `again` is the next one.
  after_query-Tried :
      (left attempt : ℕ) (sql : Text) (w v : World x) (r : Reply x.QueryResult)
      (again : World x → Outcome (Unit {0}) × World x)
      → v.history ≡ Ffi.query sql ∷ w.history
      → v.heap ≡ w.heap
      → (leb max_attempts attempt ≡ false → Tried left sql v (again v).0 (again v).1)
      → Tried (suc left) sql w (after_query attempt again r v).0 (after_query attempt again r v).1
  unfolding after_query
  after_query-Tried left attempt sql w v (done q) again h m ih = record {
    rounds = 1;
    at_least = omega arith;
    at_most = omega arith;
    history = h;
    heap = m;
    ending = inl refl;
  }
  after_query-Tried left attempt sql w v (failed e) again h m ih =
      elim (Bool-cases (not (is_conflict x.string_util e) || leb max_attempts attempt)) [
        | inl stop ↦ rw stop (record {
          rounds = 1;
          at_least = omega arith;
          at_most = omega arith;
          history = h;
          heap = m;
          ending = inr (e, refl);
        })
        | inr more ↦ rw more (Tried-again left sql h m (ih (ground arith)))
      ]

  -- With fuel for the rounds that are left, the loop ends by itself.
  pub attempts-Tried :
      (left attempt : ℕ) (sql : Text) (w : World x)
      → left + attempt ≡ suc max_attempts
      → 1 ≤ left
      → Tried left sql w (attempts left attempt con sql w).0 (attempts left attempt con sql w).1
  unfolding attempts run_query
  attempts-Tried zero attempt sql w h l = absurd (omega arith)
  attempts-Tried (suc left) attempt sql w h l =
      after_query-Tried left attempt sql w _ _ _ refl refl
        (λ more. attempts-Tried left (attempt + 1) sql _ (omega arith) (ground arith))
