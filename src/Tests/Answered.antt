-- ===== src/Tests/Answered.antt =====
-- A platform whose chunk calls run tierdb-core-ffi/src/write.rs, with the crates made concrete.
use tierdb_duckdb.Prelude.{
  ℕ, zero, suc, ◌^◌, ◌<◌, ℤ, pos, negsuc, Text, text, ◌≡◌, refl, sym, ap, ◌∙◌, Option, none, some,
  List, [], ◌∷◌, length, ltb, arith, if◌then◌else◌, ◌==◌,
}
use tierdb_duckdb.Platform.{Platform, Json, Items, Reply, done, failed}
use tierdb_duckdb.Ffi.{c_str, into_c_string}
use tierdb_duckdb.Operators.Shape.{count_items}
use tierdb_duckdb.Operators.Total.{Counting}
use tierdb_duckdb.Wire.{ChunkOutcome, to_json, as_read}
use tierdb_duckdb.Wire.Laws.{Accessors}
use tierdb_duckdb.Chunks.{Crates, delta}
use tierdb_duckdb.Chunks.Counted.{Operation, inserting, deleting, updating, chunk_of}
use tierdb_duckdb.Chunks.Answers.{Answers, Hands, handed-Counting}
use tierdb_duckdb.Tests.Fixture.{platform, yyjson, obj_get, get_str, get_sint, is_null, elements}
use tierdb_duckdb.Tests.Counted.{marks, count_of, c_str-marks, length-marks, into_c_string-marks}
use tierdb_duckdb.Tests.Chunked.{crates_of}

-- As many rows as a text has bytes.
row_for_each : Text → List Json
row_for_each [] = []
row_for_each (c ∷ s) = Json.null ∷ row_for_each s

length-row_for_each : (s : Text) → length (row_for_each s) ≡ length s
unfolding row_for_each
length-row_for_each [] = refl
length-row_for_each (c ∷ s) = ap suc (length-row_for_each s)

abbrev crates : Crates
crates = record (crates_of [] delta) { rows_from_str = λ s. done (row_for_each s) }

abbrev bare : ℕ → ChunkOutcome
bare n = record { count = pos n; attach_sql = none; lake_sql = [] }

-- A count without lake statements is printed as so many marks.
print_parts : ℤ → Option Text → List Text → Text
print_parts (pos n) none [] = marks n
print_parts _ _ _ = text "x"

abbrev print : ChunkOutcome → Text
print o = print_parts o.count o.attach_sql o.lake_sql

read_marks : Text → Option Json
read_marks [] = some (as_read (to_json (bare 0)))
read_marks (c ∷ s) = if c == b'x' then none else some (as_read (to_json (bare (suc (length s)))))

printed : Reply ChunkOutcome → Reply Text
printed (done o) = done (print o)
printed (failed e) = failed e

written_marks : Json → Option Text
written_marks doc = if ltb (count_of doc) (2 ^ 63) then some (marks (count_of doc)) else none

abbrev answer : Operation → Text → Text → Text → Reply Text
answer op s t json = printed (chunk_of crates op (text "host=h") s t json []).0

abbrev serving : Platform
serving = record platform {
  yyjson = record yyjson { read = read_marks; write = written_marks };
  insert_chunk = λ k s t json st. (answer inserting s t json, st);
  delete_chunk = λ k s t json st. (answer deleting s t json, st);
  update_chunk = λ k s t json st. (answer updating s t json, st);
}

read_marks-marks : (n : ℕ) → read_marks (marks n) ≡ some (as_read (to_json (bare n)))
unfolding read_marks
read_marks-marks zero = refl
read_marks-marks (suc n) = ap (λ m. some (as_read (to_json (bare (suc m))))) (length-marks n)

unread : {A : Type 0} (root : Json) → read_marks (into_c_string (text "x")) ≡ some root → A
unfolding read_marks into_c_string tierdb_duckdb.Ffi.has_nul
unread root h = cc

read_print :
    (count : ℤ) (attach : Option Text) (sql : List Text) (root : Json)
    → read_marks (into_c_string (print_parts count attach sql)) ≡ some root
    → root ≡ as_read (to_json (record { count = count; attach_sql = attach; lake_sql = sql }))
unfolding print_parts
read_print (pos n) none [] root h =
    let e = read_marks-marks n in let f = into_c_string-marks n in cc
read_print (pos n) none (s ∷ ss) root h = unread root h
read_print (pos n) (some t) sql root h = unread root h
read_print (negsuc n) attach sql root h = unread root h

parsed :
    (js : Items) (json : Text) (rows : List Json)
    → written_marks (Json.arr js) ≡ some json
    → done (row_for_each (c_str json)) ≡ done rows
    → (length rows ≡ count_items js) × (length rows < 2 ^ 63)
unfolding written_marks
parsed js json rows h r =
    let n = count_items js in
    let l : n < 2 ^ 63 = ground arith in
    let m : marks n ≡ json = ground arith in
    let q : row_for_each (c_str json) ≡ rows = cc in
    let e : length rows ≡ n =
      ap length (sym q)
      ∙ length-row_for_each (c_str json)
      ∙ ap (λ t. length (c_str t)) (sym m)
      ∙ ap length (c_str-marks n)
      ∙ length-marks n in
    (e, omega (arith, e, l))

answering-Answers : Answers serving crates
unfolding written_marks row_for_each
answering-Answers = record {
  dsn = λ c. text "host=h";
  client = λ c st. [];
  print = print;
  reads = λ o root h. read_print o.count o.attach_sql o.lake_sql root h;
  parses = parsed;
}

accessors : Accessors serving.yyjson
unfolding obj_get get_str get_sint is_null elements
accessors = record {
  get = λ fs key. refl;
  string = λ s. refl;
  no_string = refl;
  unsigned = λ n l. refl;
  signed = λ n. refl;
  null = refl;
  unsigned_value = λ n. refl;
  signed_value = λ n. refl;
  each = λ js. refl;
}

handed :
    (r : Reply ChunkOutcome) (t : Text)
    → printed r ≡ done t
    → (o : ChunkOutcome) × (r ≡ done o) × (t ≡ print o)
unfolding printed
handed (done o) t h = (o, refl, cc)
handed (failed e) t h = cc

inserting-Hands : Hands answering-Answers inserting serving.insert_chunk
unfolding answering-Answers
inserting-Hands c s t json answer st h = handed _ answer h

deleting-Hands : Hands answering-Answers deleting serving.delete_chunk
unfolding answering-Answers
deleting-Hands c s t json answer st h = handed _ answer h

updating-Hands : Hands answering-Answers updating serving.update_chunk
unfolding answering-Answers
updating-Hands c s t json answer st h = handed _ answer h

handed-Counting_example : Counting serving
handed-Counting_example =
    handed-Counting answering-Answers accessors inserting-Hands deleting-Hands updating-Hands
