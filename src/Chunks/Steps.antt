-- ===== src/Chunks/Steps.antt =====
-- What the loops of tierdb-core-ffi/src/write.rs do, as one list of steps that is known before the first statement runs.
use tierdb_duckdb.Prelude.{
  Text, ◌≡◌, refl, sym, ap, ◌∙◌, Bool, true, false, List, [], ◌∷◌, ◌++◌, append_assoc, append-nil,
}
use tierdb_duckdb.Platform.{Reply, done, failed}
use tierdb_duckdb.Rust.{Fallible, return, and_then, ◌>>=◌}
use tierdb_duckdb.Chunks.{Crates, Param}
use tierdb_duckdb.Chunks.Lake.{Tuples, executed, row_loop}

-- A statement with the words that its error starts with, or the error that the code stops at.
pub data Step (Value : Type 0) : Type 0 where
  statement : Text → Text → List (Param Value) → Step Value
  stop : Text → Step Value

abbrev pub flatten : {A B : Type 0} → (A → List B) → List A → List B
flatten f [] = []
flatten f (x ∷ xs) = f x ++ flatten f xs

module _ {S A B C : Type 0} where
  and_then_assoc :
      (r : Reply A) (f : A → Fallible S B) (g : B → Fallible S C) (t : S)
      → let (q, u) = and_then r f t in and_then q g u ≡ and_then r (λ a. f a >>= g) t
  and_then_assoc (done a) f g t = refl
  and_then_assoc (failed e) f g t = refl

module _ {S A B : Type 0} where
  pub and_then_same :
      (r : Reply A) (f g : A → Fallible S B) (t : S)
      → ((a : A) → f a t ≡ g a t)
      → and_then r f t ≡ and_then r g t
  and_then_same (done a) f g t h = h a
  and_then_same (failed e) f g t h = refl

and_then_done :
    {S : Type 0} (r : Reply (Unit {0})) (t : S) → (r, t) ≡ and_then r (λ _ s. (done tt, s)) t
and_then_done (done _) t = refl
and_then_done (failed e) t = refl

module _ (k : Crates) where
  abbrev pub Steps : Type 0
  Steps = List (Step k.Value)

  -- A row that the retention line refuses stops the loop.
  abbrev pub accepted_steps : Bool → Text → Steps → Steps
  accepted_steps true e steps = stop e ∷ []
  accepted_steps false e steps = steps

  -- The first step that fails is the last.
  unfoldable pub perform : Steps → Fallible k.Client (Unit {0})
  perform [] s = (done tt, s)
  perform (statement what sql params ∷ steps) s =
      (executed k what sql params >>= λ _. perform steps) s
  perform (stop e ∷ steps) s = (failed e, s)

  pub perform-append :
      (a b : Steps) (s : k.Client) → perform (a ++ b) s ≡ (perform a >>= λ _. perform b) s
  unfolding perform
  perform-append [] b s = refl
  perform-append (stop e ∷ a) b s = refl
  perform-append (statement what sql params ∷ a) b s =
      let (r, t) = executed k what sql params s in
      and_then_same r (λ _. perform (a ++ b)) (λ _. perform a >>= λ _. perform b) t
        (λ _. perform-append a b t)
      ∙ sym (and_then_assoc r (λ _. perform a) (λ _. perform b) t)

  pub performed_one :
      (what sql : Text) (params : List (Param k.Value)) (s : k.Client)
      → executed k what sql params s ≡ perform (statement what sql params ∷ []) s
  unfolding perform
  performed_one what sql params s = let (r, t) = executed k what sql params s in and_then_done r t

  after_statement :
      (r : Reply (Unit {0})) (t : k.Client) (pushed : Tuples) (m : Fallible k.Client (Unit {0}))
      (steps : Steps)
      → ((u : k.Client) → m u ≡ perform steps u)
      → let (q, u) = and_then r (λ _. return pushed) t in
        and_then q (λ p. m >>= λ _. return p) u
        ≡ (let (p, v) = and_then r (λ _. perform steps) t in and_then p (λ _. return pushed) v)
  after_statement (done _) t pushed m steps h = rw (h t) refl
  after_statement (failed e) t pushed m steps h = refl

  -- A statement that hands on the tuples, with a second part behind it.
  pub statement_then :
      (what sql : Text) (params : List (Param k.Value)) (pushed : Tuples)
      (m : Fallible k.Client (Unit {0})) (steps : Steps) (s : k.Client)
      → ((u : k.Client) → m u ≡ perform steps u)
      → ((executed k what sql params >>= λ _. return pushed) >>= λ p. m >>= λ _. return p) s
        ≡ (perform (statement what sql params ∷ steps) >>= λ _. return pushed) s
  unfolding perform
  statement_then what sql params pushed m steps s h =
      let (r, t) = executed k what sql params s in after_statement r t pushed m steps h

  perform-empty : (s : k.Client) → perform [] s ≡ (done tt, s)
  unfolding perform
  perform-empty s = refl

  -- The steps of a row and what it adds to the tuples, whatever the rows before it have added.
  abbrev pub StepsOf :
      (k.Value → Tuples → Fallible k.Client Tuples)
      → (k.Value → Steps)
      → (k.Value → Tuples)
      → Type 0
  StepsOf body steps tuples =
      (row : k.Value) (lake_rows : Tuples) (s : k.Client)
      → body row lake_rows s ≡ (perform (steps row) >>= λ _. return (lake_rows ++ tuples row)) s

  loop_step :
      (r : Reply (Unit {0})) (t : k.Client) (steps : Steps) (more : Tuples) (rest : Tuples)
      (body : Tuples → Fallible k.Client Tuples)
      → ((u : k.Client) → body more u ≡ (perform steps >>= λ _. return rest) u)
      → let (q, u) = and_then r (λ _. return more) t in
        and_then q body u
        ≡ (let (p, v) = and_then r (λ _. perform steps) t in and_then p (λ _. return rest) v)
  loop_step (done _) t steps more rest body h = h t
  loop_step (failed e) t steps more rest body h = refl

  pub row_loop-steps :
      (body : k.Value → Tuples → Fallible k.Client Tuples) (steps : k.Value → Steps)
      (tuples : k.Value → Tuples) (h : StepsOf body steps tuples) (rows : List k.Value)
      (lake_rows : Tuples) (s : k.Client)
      → row_loop k body rows lake_rows s
        ≡ (perform (flatten steps rows) >>= λ _. return (lake_rows ++ flatten tuples rows)) s
  unfolding row_loop
  row_loop-steps body steps tuples h [] lake_rows s =
      rw (perform-empty s) (ap (λ t. (done t, s)) (sym (append-nil lake_rows)))
  row_loop-steps body steps tuples h (row ∷ rows) lake_rows s =
      rw (h row lake_rows s, perform-append (steps row) (flatten steps rows) s)
        (let (r, t) = perform (steps row) s in
          loop_step r t (flatten steps rows) (lake_rows ++ tuples row)
            (lake_rows ++ (tuples row ++ flatten tuples rows)) (row_loop k body rows)
            (λ u.
              row_loop-steps body steps tuples h rows (lake_rows ++ tuples row) u
              ∙ ap (λ ts. (perform (flatten steps rows) >>= λ _. return ts) u)
                  (append_assoc lake_rows (tuples row) (flatten tuples rows))))
