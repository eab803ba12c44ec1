-- ===== src/Table/Quote.antt =====
-- `QuoteIdent` of src/storage/tierdb_table.cpp against the SQL grammar of quoted identifiers.
use tierdb_duckdb.Prelude.{
  ℕ, Text, ◌≡◌, refl, ◌≢◌, ap, ◌∙◌, Option, none, some, [], ◌∷◌, ◌++◌, arith, ◌==◌, ==_iff,
  Bool-cases, inl, inr, append_assoc, if◌then◌else◌,
}
use tierdb_duckdb.Table.{quote, quote_body, quote_ident}

abbrev push : ℕ → Option (Text × Text) → Option (Text × Text)
push c none = none
push c (some (name, rest)) = some (c ∷ name, rest)

-- A lexer of SQL behind an opening quote: two quotes are one, and a single one ends the identifier. What
-- it returns is the name and the text that follows it.
unfoldable pub read_body : Text → Option (Text × Text)
read_body [] = none
read_body (c ∷ []) = if c == quote then some ([], []) else none
read_body (c ∷ d ∷ s) =
    let doubled = read_body s in
    let plain = read_body (d ∷ s) in
    if c == quote
    then (if d == quote then push quote doubled else some ([], d ∷ s))
    else push c plain

unfoldable pub read_ident : Text → Option (Text × Text)
unfolding read_body
read_ident [] = none
read_ident (c ∷ s) = if c == quote then read_body s else none

-- The text that follows does not continue the identifier.
abbrev pub EndsIdent : Text → Type 0
EndsIdent [] = Unit
EndsIdent (c ∷ s) = c ≢ quote

read_body-end : (rest : Text) → EndsIdent rest → read_body (quote ∷ rest) ≡ some ([], rest)
unfolding read_body
read_body-end [] h = refl
read_body-end (d ∷ s) h = ground arith

read_body-plain : (c : ℕ) (s : Text) → c ≢ quote → read_body (c ∷ s) ≡ push c (read_body s)
unfolding read_body
read_body-plain c [] h = ground arith
read_body-plain c (d ∷ s) h = ground arith

read_body-doubled : (s : Text) → read_body (quote ∷ quote ∷ s) ≡ push quote (read_body s)
unfolding read_body
read_body-doubled s = refl

read_body-quote_body :
    (name rest : Text)
    → EndsIdent rest
    → read_body (quote_body name ++ quote ∷ rest) ≡ some (name, rest)
unfolding quote_body
read_body-quote_body [] rest h = read_body-end rest h
read_body-quote_body (c ∷ name) rest h = elim (Bool-cases (c == quote)) [
  | inl e ↦
      rw (e, (==_iff c quote).0 e)
        (read_body-doubled _ ∙ ap (push quote) (read_body-quote_body name rest h))
  | inr e ↦
      rw e (read_body-plain c _ (ground arith) ∙ ap (push c) (read_body-quote_body name rest h))
]

-- Any column name, quotes and all, is read back from the SQL that it is put into, and the rest of the SQL
-- is left as it was, so no name can reach beyond its quotes.
pub read_ident-quote_ident :
    (name rest : Text) → EndsIdent rest → read_ident (quote_ident name ++ rest) ≡ some (name, rest)
unfolding read_ident quote_ident
read_ident-quote_ident name rest h = rw append_assoc (read_body-quote_body name rest h)
