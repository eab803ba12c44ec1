-- ===== src/Protocol/Steps.antt =====
-- Programs whose every step stays in a relation between the state before and the state after: the way in
-- which the calls of src/storage/tierdb_transaction.cpp are collected.
use tierdb_duckdb.Prelude.{◌≡◌, refl, Bool, true, false, if◌then◌else◌}
use tierdb_duckdb.Outcome.{Exec, Outcome, ok, throw, fault, continue, ◌>>=◌}

-- A reflexive and transitive relation on the states.
pub record Order (S : Type 0) : Type 1 where
  pub rel : S → S → Type 0
  pub reflexive : (s : S) → rel s s
  pub transitive : {s t u : S} → rel s t → rel t u → rel s u

module _ {S : Type 0} (o : Order S) where
  pub record Moves {A : Type 0} (m : Exec S A) : Type 0 where
    pub moved : (s : S) → o.rel s (m s).1

  continue-Moves :
      {A B : Type 0} (r : Outcome A) (f : A → Exec S B) (s t : S)
      → o.rel s t
      → ((a : A) → r ≡ ok a → o.rel t (f a t).1)
      → o.rel s (continue r f t).1
  continue-Moves (ok a) f s t h k = o.transitive h (k a refl)
  continue-Moves (throw e) f s t h k = h
  continue-Moves fault f s t h k = h

  -- From one state; the second step may use that the first one returned.
  pub bind-moved :
      {A B : Type 0} (m : Exec S A) (f : A → Exec S B) (s : S)
      → o.rel s (m s).1
      → ((a : A) → (m s).0 ≡ ok a → o.rel (m s).1 (f a (m s).1).1)
      → o.rel s ((m >>= f) s).1
  bind-moved m f s h k = continue-Moves (m s).0 f s (m s).1 h k

  pub bind-Moves :
      {A B : Type 0} (m : Exec S A) (f : A → Exec S B)
      → Moves m
      → ((a : A) → Moves (f a))
      → Moves (m >>= f)
  bind-Moves m f h k = record { moved = λ s. bind-moved m f s (h.moved s) (λ a e. (k a).moved _) }

  pub choose-moved :
      {A : Type 0} (b : Bool) (p q : Outcome A × S) (s : S)
      → o.rel s p.1
      → o.rel s q.1
      → o.rel s (if b then p else q).1
  choose-moved true p q s h k = h
  choose-moved false p q s h k = k

  pub choose-Moves :
      {A : Type 0} (b : Bool) (m n : Exec S A)
      → Moves m
      → Moves n
      → Moves (λ s. (if b then m else n) s)
  choose-Moves true m n h k = record { moved = h.moved }
  choose-Moves false m n h k = record { moved = k.moved }
