-- ===== src/Tests/Names.antt =====
-- Runs of `TierDBLogicalTypeFromString` of src/storage/tierdb_client.cpp.
use tierdb_duckdb.Prelude.{
  ℕ, zero, suc, ◌+◌, ◌-◌, ◌≤◌, Text, text, text_eq_iff, text_eq_refl, ◌≡◌, refl, sym, ap, ◌∙◌, ◌≢◌,
  true, false, List, [], ◌∷◌, ◌++◌, length, drop, length-append, arith,
}
use tierdb_duckdb.Outcome.{ok, fault}
use tierdb_duckdb.Types.{decimal, element_type, logical_type_from_string}
use tierdb_duckdb.Types.Brackets.{
  brackets, EndsWith, nested, logical_type_from_string-suffixed, logical_type_from_string-ne-fault,
}
use tierdb_duckdb.Tests.Fixture.{string_util, ends_with}

length-drop : (n : ℕ) (s : Text) → length (drop n s) ≤ length s
length-drop zero s = omega arith
length-drop (suc n) [] = omega arith
length-drop (suc n) (b ∷ s) = omega (arith, length-drop n s)

drop-append : (s r : Text) → drop (length s) (s ++ r) ≡ r
drop-append [] r = refl
drop-append (b ∷ s) r = drop-append s r

ends : EndsWith string_util
unfolding ends_with
ends = record {
  long = λ s h.
      let e = (text_eq_iff (drop (length s - 2) s) brackets).0 h in
      omega (arith, length-drop (length s - 2) s, ap length e);
  appended = λ s.
      let n : length (s ++ brackets) - 2 ≡ length s = omega (arith, length-append s brackets) in
      let e = ap (λ n. drop n (s ++ brackets)) n ∙ drop-append s brackets in
      rw e (text_eq_refl brackets);
}

price : string_util.ends_with (text "decimal(12,3)") brackets ≡ false
unfolding ends_with tierdb_duckdb.Prelude.text_eq
price = refl

logical_type_from_string-suffixed_example :
    logical_type_from_string string_util (text "decimal(12,3)[][]")
    ≡ nested 2 (element_type string_util (text "decimal(12,3)"))
logical_type_from_string-suffixed_example =
    logical_type_from_string-suffixed string_util ends 2 (text "decimal(12,3)") price

price_type : element_type string_util (text "decimal(12,3)") ≡ ok (decimal 12 3)
unfolding element_type tierdb_duckdb.Tests.Fixture.starts_with tierdb_duckdb.Prelude.text_eq
    tierdb_duckdb.Tests.Fixture.to_upper
price_type = refl

-- Without a comma, the width is read again as the scale.
width_twice : element_type string_util (text "DECIMAL(12)") ≡ ok (decimal 12 12)
unfolding element_type tierdb_duckdb.Tests.Fixture.starts_with tierdb_duckdb.Prelude.text_eq
    tierdb_duckdb.Tests.Fixture.to_upper
width_twice = refl

logical_type_from_string-ne-fault_example :
    logical_type_from_string string_util (text "decimal(12,3)[]") ≢ fault
logical_type_from_string-ne-fault_example =
    logical_type_from_string-ne-fault string_util ends (text "decimal(12,3)[]")
