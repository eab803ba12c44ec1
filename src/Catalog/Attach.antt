-- ===== src/Catalog/Attach.antt =====
-- ATTACH: `TierDBAttach` and `TierDBCreateTransactionManager` of src/storage/tierdb_storage.cpp, the constructor of
-- `TierDBCatalog` in src/storage/tierdb_catalog.cpp, and the answers that a catalog gives without its schemas, there and in
-- src/include/storage/tierdb_catalog.hpp.
use tierdb_duckdb.Prelude.{
  ◌++◌, text_eq, is_empty, none, true, ◌∷◌, ap, ◌∙◌, if◌then◌else◌, Option, Text, text, ◌≡◌, refl,
  Bool, false, some, List, [],
}
use tierdb_duckdb.Outcome.{
  Exec, Outcome, ok, throw, fault, not_implemented_exception, binder_exception, continue, pure,
  raise, ◌>>=◌, ◌>>◌,
}
use tierdb_duckdb.Platform.{StringUtil, Platform, Reply, done, failed}
use tierdb_duckdb.Ffi
use tierdb_duckdb.Ffi.{World, c_str, into_c_string}
use tierdb_duckdb.Ffi.Entry.{tierdb_connect, conn_result}
use tierdb_duckdb.Client.{TierDbClient, tierdb_error, check, connect_client}
use tierdb_duckdb.Client.Served.{called, with_string, io_error, take_error_lem}
use tierdb_duckdb.Manager.{Manager}
use tierdb_duckdb.Schema.{CatalogType, table_entry, other_type}
use tierdb_duckdb.Catalog.{attach_dsn, given, option_loop}

-- Which connection string the options give, told apart from the loop of `TierDBAttach`: the first option that is not `dsn`,
-- and the value of the last option or else the path.
abbrev pub first_unknown : StringUtil → List (Text × Text) → Option Text
first_unknown u [] = none
first_unknown u ((name, value) ∷ options) =
    if text_eq (u.lower name) (text "dsn") then first_unknown u options else some name

abbrev pub last_value : Text → List (Text × Text) → Text
last_value path [] = path
last_value path ((name, value) ∷ options) = last_value value options

abbrev pub refusal : Text → Outcome Text
refusal message = throw (record { kind = binder_exception; message = message })

abbrev pub needed : Text → Outcome Text
needed [] =
    refusal (
      text
        "tierdb attach requires a libpq connection string (ATTACH '<dsn>' AS name (TYPE tierdb))")
needed (b ∷ dsn) = ok (b ∷ dsn)

abbrev pub chosen : Option Text → Text → Outcome Text
chosen none dsn = needed dsn
chosen (some name) dsn = refusal (text "Unrecognized option for tierdb attach: " ++ name)

given-needed : (dsn : Text) → given (ok dsn) ≡ needed dsn
unfolding given is_empty
given-needed [] = refl
given-needed (b ∷ dsn) = refl

given_step :
    (b : Bool) (u : StringUtil) (options : List (Text × Text)) (name value : Text)
    → given (option_loop u options value)
      ≡ chosen (first_unknown u options) (last_value value options)
    → given (
        if b
        then option_loop u options value
        else refusal (text "Unrecognized option for tierdb attach: " ++ name))
      ≡ chosen (if b then first_unknown u options else some name) (last_value value options)
unfolding given
given_step true u options name value h = h
given_step false u options name value h = refl

attach_dsn-chosen :
    (u : StringUtil) (options : List (Text × Text)) (path : Text)
    → attach_dsn u path options ≡ chosen (first_unknown u options) (last_value path options)
unfolding attach_dsn option_loop
attach_dsn-chosen u [] path = given-needed path
attach_dsn-chosen u ((name, value) ∷ options) path =
    given_step (text_eq (u.lower name) (text "dsn")) u options name value
      (attach_dsn-chosen u options value)

pub data AccessMode : Type 0 where
  undefined automatic read_only read_write : AccessMode

-- What the constructor of a catalog sets; its schemas are not loaded yet.
pub record AttachedCatalog (x : Platform) : Type 0 where
  pub dsn : Text
  pub access_mode : AccessMode
  pub client : TierDbClient x

pub data CatalogLookupBehavior : Type 0 where
  standard lower_priority never_lookup : CatalogLookupBehavior

-- `CatalogTypeLookupRule`
unfoldable pub catalog_type_lookup_rule : CatalogType → CatalogLookupBehavior
catalog_type_lookup_rule table_entry = standard
catalog_type_lookup_rule other_type = never_lookup

-- `GetCatalogType`, `GetDefaultSchema` and `InMemory`.
abbrev pub get_catalog_type : Text
get_catalog_type = text "tierdb"

abbrev pub get_default_schema : Text
get_default_schema = text "public"

abbrev pub in_memory : Bool
in_memory = false

module _ {x : Platform} where
  -- `GetDBPath` and `GetClient`.
  abbrev pub get_db_path : AttachedCatalog x → Text
  get_db_path catalog = catalog.dsn

  abbrev pub get_client : AttachedCatalog x → TierDbClient x
  get_client catalog = catalog.client

  -- `CreateSchema`, `PlanCreateTableAs` and `DropSchema`.
  abbrev pub create_schema : {A : Type 0} → Exec (World x) A
  create_schema =
      raise not_implemented_exception
        (text "tierdb: CREATE SCHEMA is not supported (schemas follow tierdb.tables)")

  abbrev pub plan_create_table_as : {A : Type 0} → Exec (World x) A
  plan_create_table_as =
      raise not_implemented_exception (text "tierdb: CREATE TABLE AS is not implemented yet")

  abbrev pub drop_schema : {A : Type 0} → Exec (World x) A
  drop_schema = raise not_implemented_exception (text "tierdb: DROP SCHEMA is not supported")

  abbrev pub catalog_of : Text → AccessMode → TierDbClient x → AttachedCatalog x
  catalog_of dsn access_mode client = record {
    dsn = dsn;
    access_mode = access_mode;
    client = client;
  }

  -- The constructor.
  unfoldable pub tierdb_catalog : Text → AccessMode → Exec (World x) (AttachedCatalog x)
  unfolding connect_client
  tierdb_catalog dsn access_mode = do
    client ← connect_client dsn
    pure (catalog_of dsn access_mode client)

  -- `TierDBAttach`
  unfoldable pub tierdb_attach :
      Text → List (Text × Text) → AccessMode → Exec (World x) (AttachedCatalog x)
  unfolding attach_dsn tierdb_catalog
  tierdb_attach path options access_mode w =
      continue (attach_dsn x.string_util path options) (λ dsn. tierdb_catalog dsn access_mode) w

  -- `TierDBCreateTransactionManager`, with the constructor of the manager: no transaction is open.
  unfoldable pub tierdb_create_transaction_manager : World x → Manager x
  tierdb_create_transaction_manager w = record { transactions = []; fresh = 0; world = w }

  -- What the answer of `tierdb_connect` means to the constructor.
  abbrev pub connected :
      Text → AccessMode → Reply x.Conn → World x → Outcome (AttachedCatalog x) × World x
  connected dsn mode (done conn) w =
      (ok (record { dsn = dsn; access_mode = mode; client = record { conn = some conn } }), w)
  connected dsn mode (failed e) w = (io_error (tierdb_error (into_c_string e)), with_string w)

  -- What ATTACH makes of the connection string that the options give.
  abbrev pub attached : AccessMode → Outcome Text → World x → Outcome (AttachedCatalog x) × World x
  attached mode (throw e) w = (throw e, w)
  attached mode fault w = (fault, w)
  attached mode (ok dsn) w =
      let (r, st) = x.connect (c_str dsn) w.outside in
      connected dsn mode r (called (Ffi.connect (c_str dsn)) st w)

  -- What the answer means to the constructor of the client.
  abbrev client_connected : Reply x.Conn → World x → Outcome (TierDbClient x) × World x
  client_connected (done conn) w = (ok (record { conn = some conn }), w)
  client_connected (failed e) w = (io_error (tierdb_error (into_c_string e)), with_string w)

  abbrev client_of : Option x.Conn → TierDbClient x
  client_of conn = record { conn = conn }

  connect-answer :
      (r : Reply x.Conn) (w : World x)
      → (do res ← conn_result r; check res.0; pure (client_of res.1)) w ≡ client_connected r w
  unfolding conn_result check
  connect-answer (done conn) w = refl
  connect-answer (failed e) w = rw (take_error_lem (into_c_string e) w)

  connect_client-answer :
      (dsn : Text) (w : World x)
      → let (r, st) = x.connect (c_str dsn) w.outside in
        connect_client dsn w ≡ client_connected r (called (Ffi.connect (c_str dsn)) st w)
  unfolding connect_client tierdb_connect
  connect_client-answer dsn w = connect-answer _ _

  catalog-connected :
      (dsn : Text) (mode : AccessMode) (r : Reply x.Conn) (w : World x)
      → let (o, v) = client_connected r w in
        continue o (λ client. pure (catalog_of dsn mode client)) v ≡ connected dsn mode r w
  catalog-connected dsn mode (done conn) w = refl
  catalog-connected dsn mode (failed e) w = refl

  attached_lem :
      (mode : AccessMode) (o : Outcome Text) (w : World x)
      → continue o (λ dsn. tierdb_catalog dsn mode) w ≡ attached mode o w
  unfolding tierdb_catalog
  attached_lem mode (ok dsn) w = rw (connect_client-answer dsn w) (catalog-connected dsn mode _ _)
  attached_lem mode (throw e) w = refl
  attached_lem mode fault w = refl

  -- ATTACH with an option other than `dsn`, in any case of letters, is refused with the name of the first such
  -- option; without one, where the last option, or the path if there is none, is empty, it is refused
  -- too. Neither makes a call. Otherwise ATTACH makes the one call `tierdb_connect` with that string:
  -- its connection becomes the client of a catalog that keeps the string as its path, and its error
  -- leaves as an exception, with no string left over.
  pub tierdb_attach_lem :
      (path : Text) (options : List (Text × Text)) (mode : AccessMode) (w : World x)
      → tierdb_attach path options mode w
        ≡ attached mode (chosen (first_unknown x.string_util options) (last_value path options)) w
  unfolding tierdb_attach
  tierdb_attach_lem path options mode w =
      attached_lem mode (attach_dsn x.string_util path options) w
      ∙ ap (λ o. attached mode o w) (attach_dsn-chosen x.string_util options path)
