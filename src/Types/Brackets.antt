-- ===== src/Types/Brackets.antt =====
-- The recursion of `TierDBLogicalTypeFromString` in src/storage/tierdb_client.cpp through the brackets at the end of a name.
use tierdb_duckdb.Prelude.{
  ℕ, zero, suc, ◌+◌, ◌-◌, ◌≤◌, ◌<◌, Text, text, ◌≡◌, refl, ap, ◌∙◌, ◌≢◌, Bool, true, false, [], ◌∷◌,
  ◌++◌, length, take, length-append, arith, ltb, if◌then◌else◌,
}
use tierdb_duckdb.Outcome.{Exception, Outcome, ok, throw, fault}
use tierdb_duckdb.Platform.{StringUtil}
use tierdb_duckdb.Std.{substr, npos, stoi-ne-fault}
use tierdb_duckdb.Types.{
  LogicalType, ◌>>=◌, list_of, decimal_type, element_type, type_within, logical_type_from_string,
}

abbrev pub brackets : Text
brackets = text "[]"

-- What DuckDB documents of `StringUtil::EndsWith` for the two bytes.
pub record EndsWith (u : StringUtil) : Type 0 where
  pub long : (s : Text) → u.ends_with s brackets ≡ true → 2 ≤ length s
  pub appended : (s : Text) → u.ends_with (s ++ brackets) brackets ≡ true

-- `n` pairs of brackets behind a name, and the type that they stand for.
abbrev pub suffixed : ℕ → Text → Text
suffixed zero s = s
suffixed (suc n) s = suffixed n s ++ brackets

abbrev pub nested : ℕ → Outcome LogicalType → Outcome LogicalType
nested zero r = r
nested (suc n) r = list_of (nested n r)

take-append : (s r : Text) → take (length s) (s ++ r) ≡ s
take-append [] [] = refl
take-append [] (b ∷ r) = refl
take-append (b ∷ s) r = ap (λ t. b ∷ t) (take-append s r)

length-take : (n : ℕ) (s : Text) → length (take n s) ≤ n
length-take zero s = omega arith
length-take (suc n) [] = omega arith
length-take (suc n) (b ∷ s) = omega (arith, length-take n s)

length-suffixed : (n : ℕ) (s : Text) → length (suffixed n s) ≡ n + n + length s
length-suffixed zero s = omega arith
length-suffixed (suc n) s =
    omega (arith, length-suffixed n s, length-append (suffixed n s) brackets)

bind-ne-fault {ℓ κ} :
    {A : Type ℓ} {B : Type κ} (r : Outcome A) (f : A → Outcome B)
    → r ≢ fault
    → ((a : A) → f a ≢ fault)
    → (r >>= f) ≢ fault
bind-ne-fault (ok a) f h k = k a
bind-ne-fault (throw e) f h k = λ q. cc
bind-ne-fault fault f h k = absurd (h refl)

choose-ne-fault {ℓ} :
    {A : Type ℓ} (b : Bool) (p q : Outcome A)
    → (b ≡ true → p ≢ fault)
    → q ≢ fault
    → (if b then p else q) ≢ fault
choose-ne-fault true p q h k = h refl
choose-ne-fault false p q h k = k

ok-ne-fault {ℓ} : {A : Type ℓ} (a : A) → ok a ≢ fault
ok-ne-fault a h = cc

throw-ne-fault {ℓ} : {A : Type ℓ} (e : Exception) → ◌≢◌ {A = Outcome A} (throw e) fault
throw-ne-fault e h = cc

substr-ne-fault : (s : Text) (start count : ℕ) → substr s start count ≢ fault
unfolding substr
substr-ne-fault s start count =
    choose-ne-fault (ltb (length s) start) _ _ (λ b. throw-ne-fault _) (ok-ne-fault _)

decimal_type-ne-fault : (s : Text) → decimal_type s ≢ fault
unfolding decimal_type
decimal_type-ne-fault s = bind-ne-fault _ _ (substr-ne-fault s _ _) (λ args.
    bind-ne-fault _ _ (substr-ne-fault args 0 _) (λ first.
      bind-ne-fault _ _ (stoi-ne-fault first) (λ width.
        bind-ne-fault _ _ (substr-ne-fault args _ npos)
          (λ second. bind-ne-fault _ _ (stoi-ne-fault second) (λ scale. ok-ne-fault _)))))

module _ (u : StringUtil) (ends : EndsWith u) where
  -- The brackets of a name that is long enough to be cut.
  cut : (s : Text) → take (length (s ++ brackets) - 2) (s ++ brackets) ≡ s
  cut s =
      ap (λ n. take n (s ++ brackets)) (omega (arith, length-append s brackets))
      ∙ take-append s brackets

  type_within-suffixed :
      (n depth : ℕ) (s : Text)
      → n < depth
      → u.ends_with s brackets ≡ false
      → type_within u depth (suffixed n s) ≡ nested n (element_type u s)
  unfolding type_within
  type_within-suffixed n zero s l h = absurd (omega arith)
  type_within-suffixed zero (suc d) s l h = rw h refl
  type_within-suffixed (suc n) (suc d) s l h =
      rw (ends.appended (suffixed n s), cut (suffixed n s))
        (ap list_of (type_within-suffixed n d s (omega arith) h))

  -- A name that does not end in brackets, with any number of pairs of brackets behind it, is read as that
  -- many lists around what the bare name is read as; where the bare name is refused, so is the whole.
  pub logical_type_from_string-suffixed :
      (n : ℕ) (s : Text)
      → u.ends_with s brackets ≡ false
      → logical_type_from_string u (suffixed n s) ≡ nested n (element_type u s)
  unfolding logical_type_from_string
  logical_type_from_string-suffixed n s h =
      type_within-suffixed n (suc (length (suffixed n s))) s (omega (arith, length-suffixed n s)) h

  element_type-ne-fault : (s : Text) → element_type u s ≢ fault
  unfolding element_type
  element_type-ne-fault s =
      choose-ne-fault (u.starts_with (u.upper s) (text "DECIMAL(")) _ _
        (λ b. decimal_type-ne-fault s) (ok-ne-fault _)

  list_of-ne-fault : (r : Outcome LogicalType) → r ≢ fault → list_of r ≢ fault
  unfolding list_of
  list_of-ne-fault (ok t) h q = cc
  list_of-ne-fault (throw e) h q = cc
  list_of-ne-fault fault h q = h refl

  type_within-ne-fault : (depth : ℕ) (s : Text) → length s < depth → type_within u depth s ≢ fault
  unfolding type_within
  type_within-ne-fault zero s l = absurd (omega arith)
  type_within-ne-fault (suc d) s l =
      choose-ne-fault (u.ends_with s brackets) _ _
        (λ b. list_of-ne-fault _ (
          type_within-ne-fault d (take (length s - 2) s)
            (omega (arith, ends.long s b, length-take (length s - 2) s))))
        (element_type-ne-fault s)

  -- The reading of a type name ends on every name, with a type or an exception: the recursion through the
  -- brackets never runs out of its fuel.
  pub logical_type_from_string-ne-fault : (s : Text) → logical_type_from_string u s ≢ fault
  unfolding logical_type_from_string
  logical_type_from_string-ne-fault s = type_within-ne-fault (suc (length s)) s (omega arith)
