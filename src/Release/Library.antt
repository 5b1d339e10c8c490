-- ===== src/Release/Library.antt =====
-- What the release scripts use of Python's library and of Git, as parameters.
use codex_subscription_route.Prelude.{
  ℕ, Option, none, some, List, [], ◌∷◌, ◌++◌, take, Outcome, ok, err,
}
use codex_subscription_route.Text.{Bytes, codes}
use codex_subscription_route.Json.{
  Json, object, lookup, list_of, array, text, no_items, item, no_fields, field,
}
use codex_subscription_route.Release.Errors.{ReleaseError, attribute_error, key_error, type_error}
use codex_subscription_route.Release.Sources.{Git}

-- An integer: `negsuc n` is -(n + 1).
pub data ℤ : Type 0 where
  pos negsuc : ℕ → ℤ

pub record Library : Type 0 where
  -- `str.strip`, `str.split`, `str.lower`, `str.casefold`
  pub strip : Bytes → Bytes
  pub words : Bytes → List Bytes
  pub lower : Bytes → Bytes
  pub casefold : Bytes → Bytes
  -- `int`; `none` is a `ValueError`
  pub int : Bytes → Option ℤ
  -- `datetime.fromtimestamp(…, tz=utc).isoformat()`
  pub isoformat : ℕ → Bytes
  -- `uuid.uuid5(uuid.NAMESPACE_URL, …)`
  pub uuid5 : Bytes → Bytes
  -- `base64.b64decode(…, validate=True)`
  pub b64decode : Bytes → Option Bytes
  -- `hashlib.sha256(…).hexdigest()`
  pub sha256 : Bytes → Bytes
  -- `json.loads`, and `json.dumps` with the options of `_json_bytes`, encoded
  pub loads : Bytes → Option Json
  pub dumps : Json → Bytes
  pub python_version : Bytes

-- What the commands and the files of the working tree give. `_run` raises `ReleaseError`.
pub record Repository : Type 0 where
  pub head : Outcome ReleaseError Bytes
  pub status : Outcome ReleaseError Bytes
  -- `git show COMMIT:VERSION` and `git show -s --format=%ct COMMIT`
  pub committed_version : Bytes → Outcome ReleaseError Bytes
  pub timestamp : Bytes → Outcome ReleaseError Bytes
  -- `git show COMMIT:PATH`
  pub blob : Bytes → Bytes → Outcome ReleaseError Bytes
  -- the files of a commit
  pub tree : Bytes → Git
  -- the files VERSION, package-lock.json, go.mod and go.sum, if they can be read
  pub version_file : Option Bytes
  pub package_lock : Option Bytes
  pub go_mod : Option Bytes
  pub go_sum : Option Bytes
  -- the environment variable SOURCE_DATE_EPOCH
  pub epoch_variable : Option Bytes
  -- `go version` and `node --version`
  pub go_version : Outcome ReleaseError Bytes
  pub node_version : Outcome ReleaseError Bytes

-- `_json_bytes`
unfoldable pub json_bytes : Library → Json → Bytes
json_bytes py v = py.dumps v ++ codes "\n"

abbrev pub or_default : Json → Option Json → Json
or_default default none = default
or_default default (some v) = v

-- `value.get(key, default)`
unfoldable pub get : Bytes → Json → Json → Outcome ReleaseError Json
get key default (object fields) = ok (or_default default (lookup key fields))
get key default _ = err attribute_error

abbrev pub or_key_error : Option Json → Outcome ReleaseError Json
or_key_error none = err key_error
or_key_error (some v) = ok v

-- `value[key]` with a text as the key
unfoldable pub index : Bytes → Json → Outcome ReleaseError Json
index key (object fields) = or_key_error (lookup key fields)
index key _ = err type_error

-- A value that must be a text: the documents that are built have no other there.
unfoldable pub as_text : Json → Outcome ReleaseError Bytes
as_text (text s) = ok s
as_text _ = err type_error

abbrev pub empty_object : Json
empty_object = object no_fields

abbrev pub empty_array : Json
empty_array = array no_items

-- The elements that `for item in value` gives to a body that begins with `item.get(…)`. A key of a
-- dictionary and a character of a text have no `get`.
unfoldable pub iterate : Json → Outcome ReleaseError (List Json)
iterate (array vs) = ok (list_of vs)
iterate (object no_fields) = ok []
iterate (object (field k v rest)) = err attribute_error
iterate (text []) = ok []
iterate (text (c ∷ s)) = err attribute_error
iterate _ = err type_error

-- `value[0]` of a value that is not empty
unfoldable pub first_item : Json → Outcome ReleaseError Json
first_item (array no_items) = err key_error
first_item (array (item v vs)) = ok v
first_item (object entries) = err key_error
first_item (text s) = ok (text (take 1 s))
first_item _ = err type_error
