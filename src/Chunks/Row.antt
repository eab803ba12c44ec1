-- ===== src/Chunks/Row.antt =====
-- One row of a chunk in tierdb-core-ffi/src/write.rs: its fields, its JSON columns, its tier key, its errors.
use tierdb_duckdb.Prelude.{
  ℕ, ℤ, pos, ◌+◌, Text, text, text_eq, Bool, true, false, ◌&&◌, ◌||◌, Option, none, some, List, [],
  ◌∷◌, ◌++◌, map, leb, ◌==◌, if◌then◌else◌,
}
use tierdb_duckdb.Platform.{Reply, done, failed}
use tierdb_duckdb.Wire.{TableSchema}
use tierdb_duckdb.Rust.{chain}
use tierdb_duckdb.Chunks.{Crates, Scalar, Cutline}

-- `str::to_ascii_lowercase`
unfoldable pub to_ascii_lowercase : Text → Text
to_ascii_lowercase = map (λ (c : ℕ). if leb b'A' c && leb c b'Z' then c + 32 else c)

-- `head.split('(').next()`
unfoldable pub before_paren : Text → Text
before_paren [] = []
before_paren (c ∷ s) = if c == b'(' then [] else c ∷ before_paren s

unfoldable pub scalar_text : Text → Scalar → Reply Text
scalar_text field (Scalar.string s) = done s
scalar_text field (Scalar.number n) = done n
scalar_text field (Scalar.boolean true) = done (text "true")
scalar_text field (Scalar.boolean false) = done (text "false")
scalar_text field Scalar.null = failed (text "row is missing required field '" ++ field ++ text "'")
scalar_text field (Scalar.other o) =
    failed (text "field '" ++ field ++ text "' has unsupported type: " ++ o)

module _ (k : Crates) where
  -- `field_text`
  unfoldable pub field_text : k.Value → Text → Reply Text
  unfolding scalar_text
  field_text row field = elim (k.get row field) [
    | some v ↦ scalar_text field (k.scalar v)
    | none ↦ failed (text "row is missing required field '" ++ field ++ text "'")
  ]

  -- `ts.primary_key_cols.iter().map(|c| field_text(row, c)).collect::<Result<_, _>>()`
  unfoldable pub pk_vals : k.Value → List Text → Reply (List Text)
  unfolding field_text
  pk_vals row [] = done []
  pk_vals row (c ∷ cs) =
      chain (field_text row c) (λ v. chain (pk_vals row cs) (λ vs. done (v ∷ vs)))

  unfoldable pub is_json_type : Text → Bool
  unfolding to_ascii_lowercase before_paren
  is_json_type pg_type =
      let head = k.trim (before_paren (to_ascii_lowercase (k.trim pg_type))) in
      text_eq head (text "json") || text_eq head (text "jsonb")

  -- `if let Ok(parsed) = … { map.insert(name.clone(), parsed); }`
  unfoldable pub reparsed : Text → k.Value → Reply k.Value → k.Value
  reparsed name row (done parsed) = k.insert name parsed row
  reparsed name row (failed e) = row

  unfoldable pub reparse : Text → k.Value → Option k.Value → k.Value
  unfolding reparsed
  reparse name row none = row
  reparse name row (some v) = elim (k.scalar v) [
    | Scalar.string s ↦ reparsed name row (k.from_str s)
    | _ ↦ row
  ]

  -- The loop of `normalize_json_columns`.
  unfoldable pub normalize_loop : List (Text × Text) → k.Value → k.Value
  unfolding is_json_type reparse
  normalize_loop [] row = row
  normalize_loop ((name, ty) ∷ columns) row =
      normalize_loop columns (if is_json_type ty then reparse name row (k.get row name) else row)

  -- `normalize_json_columns`
  unfoldable pub normalize_json_columns : k.Value → List (Text × Text) → k.Value
  unfolding normalize_loop
  normalize_json_columns row columns = if k.is_object row then normalize_loop columns row else row

  -- `line.unwrap_or_default()`
  unfoldable pub or_zero : Option ℤ → ℤ
  or_zero none = pos 0
  or_zero (some n) = n

  -- `retention_error`
  unfoldable pub retention_error : TableSchema → ℤ → Option ℤ → Text
  unfolding or_zero
  retention_error ts tier_key line =
      text "tier_key "
      ++ k.pg_literal ts.tier_key_type tier_key
      ++ text " is below the retention line "
      ++ k.pg_literal ts.tier_key_type (or_zero line)
      ++ text "; rows this old have been expired from the lake"

  unfoldable pub or_null : Option k.Value → k.Value
  or_null none = k.null_value
  or_null (some v) = v

  unfoldable pub tombstone_loop : k.Value → List Text → k.Value → k.Value
  unfolding or_null
  tombstone_loop row [] payload = payload
  tombstone_loop row (col ∷ cols) payload =
      tombstone_loop row cols (k.insert col (or_null (k.get row col)) payload)

  -- `tombstone_payload`
  unfoldable pub tombstone_payload : k.Value → List Text → k.Value
  unfolding tombstone_loop
  tombstone_payload row pk_cols = tombstone_loop row pk_cols k.empty_object

  -- `let tier_text = field_text(…)?; let tier_key = ts.tier_key_type.encode_text(&tier_text)…?;`
  unfoldable pub tier_key : TableSchema → k.Value → Reply ℤ
  unfolding field_text
  tier_key ts row =
      chain (field_text row ts.tier_key_col) (λ tier_text. k.encode_text ts.tier_key_type tier_text)

  -- `cutline.map(|c| route(TierKey(tier_key), c)).unwrap_or(RouteTarget::Hot)`
  unfoldable pub target : Option Cutline → ℤ → k.RouteTarget
  target none key = k.hot
  target (some c) key = k.route key c

  -- `plan.cold.is_some() && plan.check_retention && retention_rejects(tier_key, retention)`
  unfoldable pub rejected : {A : Type 0} → Option A → Bool → ℤ → Option ℤ → Bool
  rejected none check key retention = false
  rejected (some cold) check key retention = check && k.retention_rejects key retention
