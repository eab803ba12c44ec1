-- ===== src/Transaction/Pins.antt =====
-- The read pins of src/storage/tierdb_transaction.cpp: which ones a transaction holds, and which ones
-- `ReleasePins` gives back.
use tierdb_duckdb.Prelude.{
  ℤ, int_eq_iff, Text, ◌≡◌, refl, ap, ◌∙◌, ◌≢◌, ◌⊎◌, inl, inr, none, List, [], ◌∷◌, ◌++◌, arith,
  if◌then◌else◌, append-nil,
}
use tierdb_duckdb.Outcome.{Exception, Outcome, ok, throw, continue}
use tierdb_duckdb.Platform.{Platform, Reply, done, failed}
use tierdb_duckdb.Ffi
use tierdb_duckdb.Ffi.{Call, World, into_c_string}
use tierdb_duckdb.Ffi.Entry.{on_conn}
use tierdb_duckdb.Client.{TierDbClient, tierdb_error}
use tierdb_duckdb.Client.Data.{TierDbPinnedScan}
use tierdb_duckdb.Client.Served.{called, answer_status, io_error, release_read_pin-answer}
use tierdb_duckdb.Transaction.{
  TierDbTransaction, Session, find_scan, emplace, remember, get_pinned_scan, ensure_write_txn,
  release_all, release_pins,
}
use tierdb_duckdb.Transaction.Scans.{
  Scans, Statement, reads, writes, perform_statement, perform_all,
}

-- The pins that the cached scans rest on.
abbrev pub pin_ids : Scans → List ℤ
pin_ids [] = []
pin_ids ((id, p) ∷ m) = if p.has_pin then p.pin_id ∷ pin_ids m else pin_ids m

-- No table has two entries.
abbrev pub Distinct : Scans → Type 0
Distinct [] = Unit
Distinct ((id, p) ∷ m) = (find_scan id m ≡ none) × Distinct m

pub record IsPinned (t : TierDbTransaction) : Type 0 where
  pub held : t.pins ≡ pin_ids t.scan_by_table
  pub distinct : Distinct t.scan_by_table

emplace-eq-append :
    (id : ℤ) (p : TierDbPinnedScan) (m : Scans)
    → find_scan id m ≡ none
    → emplace id p m ≡ m ++ (id, p) ∷ []
unfolding find_scan emplace
emplace-eq-append id p [] h = refl
emplace-eq-append id p ((j, q) ∷ m) h = ground (arith, emplace-eq-append id p m)

pin_ids-append :
    (m : Scans) (id : ℤ) (p : TierDbPinnedScan)
    → pin_ids (m ++ (id, p) ∷ []) ≡ pin_ids m ++ (if p.has_pin then p.pin_id ∷ [] else [])
pin_ids-append [] id p = ground arith
pin_ids-append ((j, q) ∷ m) id p = ground (arith, pin_ids-append m id p)

find_scan-append :
    (k id : ℤ) (p : TierDbPinnedScan) (m : Scans)
    → find_scan id ((k, p) ∷ m) ≡ none
    → find_scan k m ≡ none
    → find_scan k (m ++ (id, p) ∷ []) ≡ none
unfolding find_scan
find_scan-append k id p [] h g = ground (arith, int_eq_iff k id, int_eq_iff id k)
find_scan-append k id p ((j, q) ∷ m) h g =
    ground (arith, find_scan-append k id p m, int_eq_iff k id)

Distinct-append :
    (id : ℤ) (p : TierDbPinnedScan) (m : Scans)
    → find_scan id m ≡ none
    → Distinct m
    → Distinct (m ++ (id, p) ∷ [])
unfolding find_scan
Distinct-append id p [] h d = (refl, tt)
Distinct-append id p ((j, q) ∷ m) h d =
    ground (arith, Distinct-append id p m, find_scan-append j id p m)

remember-IsPinned :
    (id : ℤ) (p : TierDbPinnedScan) (t : TierDbTransaction)
    → find_scan id t.scan_by_table ≡ none
    → IsPinned t
    → IsPinned (remember id p t)
unfolding remember
remember-IsPinned id p t h v = ground (
  arith,
  emplace-eq-append id p t.scan_by_table h,
  pin_ids-append t.scan_by_table id p,
  Distinct-append id p t.scan_by_table h v.distinct,
  append-nil (pin_ids t.scan_by_table),
)

-- The history after the releases of `ps`, the first one first.
abbrev pub released : List ℤ → List Call → List Call
released [] h = h
released (p ∷ ps) h = released ps (Ffi.release_read_pin p ∷ h)

module _ {x : Platform} where
  pub perform_statement-IsPinned :
      (c : TierDbClient x) (s : Statement) (σ : Session x)
      → IsPinned σ.txn
      → IsPinned (perform_statement c s σ).txn
  unfolding perform_statement get_pinned_scan ensure_write_txn
  perform_statement-IsPinned c (reads schema) σ v = grind (arith, remember-IsPinned)
  perform_statement-IsPinned c writes σ v = ground arith

  -- If a transaction, such as a new one, has no table with two cached scans, and its pins are exactly
  -- those of the cached scans, in the order in which the scans were acquired, then this still holds
  -- whatever it reads and writes and whatever fails.
  pub perform_all-IsPinned :
      (c : TierDbClient x) (ss : List Statement) (σ : Session x)
      → IsPinned σ.txn
      → IsPinned (perform_all c ss σ).txn
  unfolding perform_all
  perform_all-IsPinned c [] σ v = v
  perform_all-IsPinned c (s ∷ ss) σ v =
      perform_all-IsPinned c ss _ (perform_statement-IsPinned c s σ v)

  -- How a run over the pins `ps` went: all were released, or those up to one that failed.
  pub record Releases (ps : List ℤ) (w : World x) (r : Outcome (Unit {0})) (w' : World x)
      : Type 0 where
    pub sent : List ℤ
    pub rest : List ℤ
    pub split : ps ≡ sent ++ rest
    pub history : w'.history ≡ released sent w.history
    pub live : w'.heap.live ≡ w.heap.live
    pub ending : ((r ≡ ok tt) × (rest ≡ [])) ⊎ ((e : Exception) × (r ≡ throw e) × (sent ≢ []))

  -- A run that returns has released every pin.
  pub Releases-ok :
      {ps : List ℤ} {w w' : World x} {r : Outcome (Unit {0})}
      → Releases ps w r w'
      → r ≡ ok tt
      → w'.history ≡ released ps w.history
  Releases-ok {ps} {w} rel h =
      rel.history
      ∙ ap (λ t. released t w.history) {x = rel.sent} {y = ps}
          (ground (arith, rel.ending, rel.split, append-nil rel.sent))

  Releases-cons :
      (p : ℤ) {ps : List ℤ} {w v w' : World x} {r : Outcome (Unit {0})}
      → v.history ≡ Ffi.release_read_pin p ∷ w.history
      → v.heap.live ≡ w.heap.live
      → Releases ps v r w'
      → Releases (p ∷ ps) w r w'
  Releases-cons p h l rel = record {
    sent = p ∷ rel.sent;
    rest = rel.rest;
    split = ap (λ t. p ∷ t) rel.split;
    history = rel.history ∙ ap (released rel.sent) h;
    live = rel.live ∙ l;
    ending = ground (arith, rel.ending);
  }

  release_step :
      (c : TierDbClient x) (p : ℤ) (ps : List ℤ) (w : World x) (st : x.State) (r : Reply (Unit {0}))
      → ((v : World x) → Releases ps v (release_all c ps v).0 (release_all c ps v).1)
      → let s = answer_status r (called (Ffi.release_read_pin p) st w) in
        let t = continue s.0 (λ _. release_all c ps) s.1 in Releases (p ∷ ps) w t.0 t.1
  release_step c p ps w st (done _) ih = Releases-cons p refl refl (ih _)
  release_step c p ps w st (failed e) ih = record {
    sent = p ∷ [];
    rest = ps;
    split = refl;
    history = refl;
    live = refl;
    ending = inr (_, refl, (λ h. cc));
  }

  release_all-Releases :
      (c : TierDbClient x) (ps : List ℤ) (w : World x)
      → Releases ps w (release_all c ps w).0 (release_all c ps w).1
  unfolding release_all
  release_all-Releases c [] w = record {
    sent = [];
    rest = [];
    split = refl;
    history = refl;
    live = refl;
    ending = inl (refl, refl);
  }
  release_all-Releases c (p ∷ ps) w =
      rw (release_read_pin-answer c p w) (release_step c p ps w _ _ (release_all-Releases c ps))

  -- `ReleasePins` forgets every pin and scan. It calls the release once for each pin of a prefix of the
  -- pins, in the order of acquisition: of all pins if it returns; otherwise an exception leaves,
  -- after at least one call, and the other pins are not released. No string of Rust is left over.
  pub release_pins-Releases :
      (c : TierDbClient x) (σ : Session x)
      → let (r, σ') = release_pins c σ in
        Releases σ.txn.pins σ.world r σ'.world
        × (σ'.txn ≡ record σ.txn { pins = []; scan_by_table = [] })
  unfolding release_pins
  release_pins-Releases c σ = (release_all-Releases c σ.txn.pins σ.world, refl)

  -- If the release of the oldest pin fails, no other pin of the transaction is released, and the
  -- transaction has forgotten them all.
  pub release_pins_abandons :
      (c : TierDbClient x) (σ : Session x) (p : ℤ) (ps : List ℤ) (e : Text)
      → σ.txn.pins ≡ p ∷ ps
      → (on_conn (λ k. x.release_read_pin k p) c.conn σ.world.outside).0 ≡ failed e
      → let (r, σ') = release_pins c σ in
        (r ≡ io_error (tierdb_error (into_c_string e)))
        × (σ'.world.history ≡ Ffi.release_read_pin p ∷ σ.world.history)
        × (σ'.txn.pins ≡ [])
  unfolding release_pins release_all
  release_pins_abandons c σ p ps e h f =
      rw h (rw (release_read_pin-answer c p σ.world, f) (refl, refl, refl))
