-- ===== src/Manager/Commit.antt =====
-- `CommitTransaction` of src/storage/tierdb_transaction_manager.cpp, up to the erasure of the transaction.
use tierdb_duckdb.Prelude.{
  Text, ◌≡◌, refl, sym, ap, ◌∙◌, ◌++◌, ◌≢◌, true, none, some, List, ◌∷◌, arith, if◌then◌else◌, ℤ,
}
use tierdb_duckdb.Outcome.{Outcome, ok, throw, fault, io_exception}
use tierdb_duckdb.Platform.{Platform, done, failed}
use tierdb_duckdb.Ffi
use tierdb_duckdb.Ffi.{Call, World, into_c_string}
use tierdb_duckdb.Ffi.Entry.{on_conn}
use tierdb_duckdb.Client.{TierDbClient, tierdb_error}
use tierdb_duckdb.Client.Served.{io_error, txn_commit-answer}
use tierdb_duckdb.Transaction.{Session, release_pins, commit_write, rollback_write}
use tierdb_duckdb.Transaction.Pins.{released, release_pins-Releases, Releases-ok}
use tierdb_duckdb.Manager.{ErrorData, commit_phase, release_phase, commit_session}

-- The error that a method that returned, or threw, leaves in `error`.
abbrev pub reported : Outcome (Unit {0}) → ErrorData
reported (ok _) = none
reported (throw e) = some e
reported fault = none

-- What the release of the pins makes of it.
abbrev pub then_reported : ErrorData → Outcome (Unit {0}) → ErrorData
then_reported none r = reported r
then_reported (some e) r = some e

both_ok :
    (r q : Outcome (Unit {0}))
    → r ≢ fault
    → q ≢ fault
    → then_reported (reported r) q ≡ none
    → (r ≡ ok tt) × (q ≡ ok tt)
both_ok (ok u) (ok v) f g h = (refl, refl)
both_ok (ok u) (throw e) f g h = cc
both_ok (throw e) q f g h = cc
both_ok fault q f g h = absurd (f refl)
both_ok (ok u) fault f g h = absurd (g refl)

module _ {x : Platform} (c : TierDbClient x) where
  commit_phase_lem :
      (σ : Session x) → let (r, σ') = commit_write c σ in commit_phase c σ ≡ (ok (reported r), σ')
  unfolding commit_phase commit_write rollback_write
  commit_phase_lem σ = ground (arith, txn_commit-answer c σ.world)

  release_phase_lem :
      (e : ErrorData) (σ : Session x)
      → let (r, σ') = release_pins c σ in release_phase c e σ ≡ (ok (then_reported e r), σ')
  unfolding release_phase
  release_phase_lem none σ = ground (arith, (release_pins-Releases c σ).0.ending)
  release_phase_lem (some e) σ = ground (arith, (release_pins-Releases c σ).0.ending)

  -- `CommitTransaction` is `CommitWrite`, then `ReleasePins` whether or not that failed; the error of the
  -- first to fail is reported.
  pub commit_session_lem :
      (σ : Session x)
      → let (r, σ') = commit_write c σ in
        let (q, σ'') = release_pins c σ' in
        commit_session c σ ≡ (ok (then_reported (reported r) q), σ'')
  unfolding commit_session
  commit_session_lem σ = rw commit_phase_lem (release_phase_lem _ _)

  -- The history after `CommitWrite`.
  commit_write-history :
      (σ : Session x)
      → (commit_write c σ).1.world.history
        ≡ (if σ.txn.write_active then Ffi.txn_commit ∷ σ.world.history else σ.world.history)
  unfolding commit_write
  commit_write-history σ = ground (arith, txn_commit-answer c σ.world)

  commit_write-pins : (σ : Session x) → (commit_write c σ).1.txn.pins ≡ σ.txn.pins
  unfolding commit_write
  commit_write-pins σ = ground arith

  commit_write-ne-fault : (σ : Session x) → (commit_write c σ).0 ≢ fault
  unfolding commit_write
  commit_write-ne-fault σ h = ground (arith, txn_commit-answer c σ.world)

  release_pins-ne-fault : (σ : Session x) → (release_pins c σ).0 ≢ fault
  release_pins-ne-fault σ h = ground (arith, (release_pins-Releases c σ).0.ending)

  commit_write-done :
      (σ : Session x)
      → (commit_write c σ).0 ≡ ok tt
      → (if σ.txn.write_active then (on_conn x.txn_commit c.conn σ.world.outside).0 else done tt)
        ≡ done tt
  unfolding commit_write
  commit_write-done σ h = ground (arith, txn_commit-answer c σ.world)

  commit_write-failed :
      (σ : Session x) (e : Text)
      → σ.txn.write_active ≡ true
      → (on_conn x.txn_commit c.conn σ.world.outside).0 ≡ failed e
      → (commit_write c σ).0 ≡ io_error (tierdb_error (into_c_string e))
  unfolding commit_write
  commit_write-failed σ e a f = ground (arith, txn_commit-answer c σ.world)

  -- A commit that reports no error has committed the write transaction, if one was open, and has then
  -- released every pin, each once and in the order of acquisition, and has made no other call.
  pub commit_session_succeeds :
      (σ : Session x)
      → (commit_session c σ).0 ≡ ok none
      → ((commit_session c σ).1.world.history
          ≡ released σ.txn.pins
              (if σ.txn.write_active then Ffi.txn_commit ∷ σ.world.history else σ.world.history))
        × ((if σ.txn.write_active then (on_conn x.txn_commit c.conn σ.world.outside).0 else done tt)
            ≡ done tt)
  commit_session_succeeds σ h =
      let (r, q) =
        both_ok (commit_write c σ).0 _ (commit_write-ne-fault σ) (release_pins-ne-fault _)
          (ground (arith, h, commit_session_lem σ)) in
      (
        rw (
          commit_session_lem σ,
          Releases-ok (release_pins-Releases c (commit_write c σ).1).0 q,
          commit_write-pins σ,
          commit_write-history σ,
        ),
        commit_write-done σ r,
      )

  -- If the commit of the write transaction fails, its error is reported, whatever becomes of the pins;
  -- after the failed commit come releases of pins and no rollback.
  pub commit_session_fails :
      (σ : Session x) (e : Text)
      → σ.txn.write_active ≡ true
      → (on_conn x.txn_commit c.conn σ.world.outside).0 ≡ failed e
      → (sent rest : List ℤ) × ((commit_session c σ).0
          ≡ ok (some (record { kind = io_exception; message = tierdb_error (into_c_string e) })))
        × (σ.txn.pins ≡ sent ++ rest)
        × ((commit_session c σ).1.world.history ≡ released sent (Ffi.txn_commit ∷ σ.world.history))
  commit_session_fails σ e a f =
      let rel = (release_pins-Releases c (commit_write c σ).1).0 in
      (
        rel.sent,
        rel.rest,
        rw (commit_session_lem σ, commit_write-failed σ e a f),
        sym (commit_write-pins σ) ∙ rel.split,
        rw (commit_session_lem σ)
            (rel.history ∙ ap (released rel.sent) (commit_write-history σ ∙ rw a)),
      )
