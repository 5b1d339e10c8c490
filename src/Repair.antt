-- ===== src/Repair.antt =====
-- scripts/repair_provider_compatibility.py: `patched_config` and `repair`.
pub mod Idempotent
pub mod Keeps
use codex_subscription_route.Prelude.{
  Bool, true, false, not, ◌&&◌, Option, none, some, List, [], ◌∷◌, ◌++◌, ◌==◌, if◌then◌else◌,
  Outcome, ok, err, ◌>>=◌, ◌>>◌, raise_if,
}
use codex_subscription_route.Text.{Bytes, codes, bytes_eq, is_utf8, includes, replace}
use codex_subscription_route.Json.{
  Json, text, boolean, object, JsonFields, no_fields, field, lookup, object_of,
}

pub data RepairError : Type 0 where
  -- the `raise` statements
  differs unexpected not_regular changed : RepairError
  -- `UnicodeDecodeError`, `TOMLDecodeError`, `AttributeError`, `OSError`
  not_utf8 not_toml attribute_error os_error : RepairError

-- `tomllib.loads`, a date and a number by its text, and `==` of the values that it returns.
pub record Toml : Type 0 where
  pub loads : Bytes → Option Json
  pub equal : Json → Json → Bool

abbrev pub provider : Bytes
provider = codes "codex_router_spend"

abbrev pub providers_key : Bytes
providers_key = codes "model_providers"

abbrev pub direct_provider : Json
direct_provider = object_of (
    (codes "name", text (codes "OpenAI"))
    ∷ (codes "wire_api", text (codes "responses"))
    ∷ (codes "requires_openai_auth", boolean true)
    ∷ (codes "supports_websockets", boolean true)
    ∷ [])

-- `BLOCK.strip()`
abbrev pub block : Bytes
block =
    codes "# Router history compatibility: outside the router, use this app's OpenAI login.\n"
    ++ (codes "# No proxy address or token is persisted. The router overrides this per process.\n"
        ++ (codes "[model_providers.codex_router_spend]\n"
            ++ (codes "name = \"OpenAI\"\n"
                ++ (codes "wire_api = \"responses\"\n"
                    ++ (codes "requires_openai_auth = true\n"
                        ++ codes "supports_websockets = true")))))

-- Without a byte order mark
abbrev pub without_mark : Bytes → Bytes
without_mark (a ∷ b ∷ c ∷ s) = if a == 0xef && b == 0xbb && c == 0xbf then s else a ∷ b ∷ c ∷ s
without_mark s = s

abbrev pub or_not_toml : Option Json → Outcome RepairError Json
or_not_toml none = err not_toml
or_not_toml (some v) = ok v

-- `tomllib.loads(data.decode("utf-8-sig"))`
unfoldable pub read_config : Toml → Bytes → Outcome RepairError Json
read_config toml contents = do
  raise_if (not (is_utf8 contents)) not_utf8
  or_not_toml (toml.loads (without_mark contents))

-- `table.get(key)`
unfoldable pub get : Bytes → Json → Outcome RepairError (Option Json)
get key (object entries) = ok (lookup key entries)
get key v = err attribute_error

abbrev pub or_empty : Option Json → Json
or_empty none = object no_fields
or_empty (some v) = v

-- `config.get("model_providers", {})`
abbrev pub providers : Json → Outcome RepairError Json
providers config = get providers_key config >>= λ found. ok (or_empty found)

-- `{**table, key: value}`
unfoldable pub set_field : Bytes → Json → JsonFields → JsonFields
set_field key value no_fields = field key value no_fields
set_field key value (field k v entries) =
    let later = set_field key value entries in
    if bytes_eq key k then field k value entries else field k v later

abbrev pub with_field : Bytes → Json → Json → Outcome RepairError Json
with_field key value (object entries) = ok (object (set_field key value entries))
with_field key value v = err attribute_error

-- The config that is expected of the change.
unfoldable pub expected_config : Json → Json → Outcome RepairError Json
expected_config config table = do
  changed_table ← with_field provider direct_provider table
  with_field providers_key changed_table config

abbrev pub newline_of : Bytes → Bytes
newline_of original = if includes (codes "\r\n") original then codes "\r\n" else codes "\n"

abbrev pub with_block : Bytes → Bytes
with_block original =
    original
    ++ (newline_of original
        ++ (replace (codes "\n") (newline_of original) block ++ newline_of original))

unfoldable pub add_provider : Toml → Bytes → Json → Json → Outcome RepairError Bytes
add_provider toml original config table = do
  parsed ← read_config toml (with_block original)
  expected ← expected_config config table
  raise_if (not (toml.equal parsed expected)) unexpected
  ok (with_block original)

abbrev pub keep_or_add : Toml → Bytes → Json → Json → Option Json → Outcome RepairError Bytes
keep_or_add toml original config table none = add_provider toml original config table
keep_or_add toml original config table (some existing) =
    raise_if (not (toml.equal existing direct_provider)) differs >> ok original

unfoldable pub patched_config : Toml → Bytes → Outcome RepairError Bytes
patched_config toml original = do
  config ← read_config toml original
  table ← providers config
  existing ← get provider table
  keep_or_add toml original config table existing

-- What the call of `repair` touches. A file that is not there is `none`.
pub record Files : Type 0 where
  pub config : Bytes
  pub backup : Option Bytes
  pub temporary : Option Bytes

-- A call to come: what another process has written to the config before it, and whether it works.
pub record Call : Type 0 where
  pub meanwhile : Option Bytes
  pub works : Bool

pub record World : Type 0 where
  pub files : Files
  pub calls : List Call

abbrev pub after_others : Option Bytes → Files → Files
after_others none f = f
after_others (some s) f = record { config = s; backup = f.backup; temporary = f.temporary }

-- A call of the operating system. Behind the listed ones every call works, with no other process.
unfoldable pub perform :
    {A : Type 0} → (Files → A) → (Files → Files) → World → Outcome RepairError A × World
perform result act w = elim w.calls [
  | [] ↦ (ok (result w.files), record { files = act w.files; calls = [] })
  | call ∷ calls ↦
      let f = after_others call.meanwhile w.files in
      if call.works
      then (ok (result f), record { files = act f; calls = calls })
      else (err os_error, record { files = f; calls = calls })
]

-- What follows a call that works.
abbrev pub and_then :
    {A B : Type 0}
    → Outcome RepairError A × World
    → (A → World → Outcome RepairError B × World)
    → Outcome RepairError B × World
and_then (err e, w) next = (err e, w)
and_then (ok a, w) next = next a w

abbrev pub nothing : Files → Unit {0}
nothing f = tt

abbrev pub same_files : Files → Files
same_files f = f

abbrev pub with_backup : Bytes → Files → Files
with_backup s f = record { config = f.config; backup = some s; temporary = f.temporary }

abbrev pub with_temporary : Option Bytes → Files → Files
with_temporary o f = record { config = f.config; backup = f.backup; temporary = o }

-- `os.replace(temporary, config_path)`
abbrev pub replaced : Bytes → Files → Files
replaced s f = record { config = s; backup = f.backup; temporary = none }

-- The block behind `try`: write the temporary file, read the config again, and replace it.
unfoldable pub replace_config : Bytes → Bytes → World → Outcome RepairError (Unit {0}) × World
replace_config original result w =
    and_then (perform nothing (with_temporary (some result)) w) (λ u w.
      and_then (perform (λ f. f.config) same_files w) (λ now w.
        if bytes_eq now original then perform nothing (replaced result) w else (err changed, w)))

-- The block behind `finally`: a failure there replaces the one before.
abbrev pub finish :
    Outcome RepairError (Unit {0}) → Outcome RepairError (Unit {0}) → Outcome RepairError Bool
finish (err e) outcome = err e
finish (ok u) (err e) = err e
finish (ok u) (ok v) = ok true

abbrev pub remove_temporary : Option Bytes → World → Outcome RepairError (Unit {0}) × World
remove_temporary none w = (ok tt, w)
remove_temporary (some s) w = perform nothing (with_temporary none) w

unfoldable pub cleanup : Outcome RepairError (Unit {0}) × World → Outcome RepairError Bool × World
cleanup (outcome, w) =
    let (removed, after) = remove_temporary w.files.temporary w in (finish removed outcome, after)

-- The backup: it is opened, its mode is set, and it is written; then the temporary file is made.
unfoldable pub back_up : Bytes → World → Outcome RepairError (Unit {0}) × World
back_up original w = and_then (perform nothing (with_backup []) w) (λ u w.
    and_then (perform nothing same_files w) (λ u w.
      and_then (perform nothing (with_backup original) w)
        (λ u w. perform nothing (with_temporary (some [])) w)))

abbrev pub repair_with :
    Bytes → Outcome RepairError Bytes → World → Outcome RepairError Bool × World
repair_with original (err e) w = (err e, w)
repair_with original (ok result) w =
    if bytes_eq result original
    then (ok false, w)
    else and_then (back_up original w) (λ u w. cleanup (replace_config original result w))

-- `true` stands for the path of the backup, `false` for `None`.
unfoldable pub repair : Toml → Bool → World → Outcome RepairError Bool × World
repair toml is_regular w =
    if is_regular
    then and_then (perform (λ f. f.config) same_files w)
        (λ original w. repair_with original (patched_config toml original) w)
    else (err not_regular, w)
