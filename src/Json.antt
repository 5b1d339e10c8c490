-- ===== src/Json.antt =====
-- JSON values as `json.loads` returns them and `json.dumps` takes them. A dictionary is written in the
-- order of its keys, which are different.
use codex_subscription_route.Prelude.{
  is_nil, ◌≡◌, refl, ap, subst, Bool, true, false, not, ◌&&◌, ◌||◌, Option, none, some, List, [],
  ◌∷◌, map, ◌==◌, Bool-cases, inl, inr, and-eq-true, if◌then◌else◌,
}
use mathlib.Core.Option.{some-injective}
use codex_subscription_route.Text.{Bytes, bytes_eq, is_distinct}

mutual
  pub data Json : Type 0 where
    null : Json
    boolean : Bool → Json
    number text : Bytes → Json
    array : JsonItems → Json
    object : JsonFields → Json

  pub data JsonItems : Type 0 where
    no_items : JsonItems
    item : Json → JsonItems → JsonItems

  pub data JsonFields : Type 0 where
    no_fields : JsonFields
    field : Bytes → Json → JsonFields → JsonFields

-- `d.get(key)`
unfoldable pub lookup : Bytes → JsonFields → Option Json
unfolding bytes_eq
lookup key no_fields = none
lookup key (field k v fields) = if bytes_eq key k then some v else lookup key fields

unfoldable pub keys : JsonFields → List Bytes
keys no_fields = []
keys (field k v fields) = k ∷ keys fields

-- The dictionary of some keys and values.
unfoldable pub fields_of : List (Bytes × Json) → JsonFields
fields_of [] = no_fields
fields_of ((k, v) ∷ entries) = field k v (fields_of entries)

abbrev pub object_of : List (Bytes × Json) → Json
object_of entries = object (fields_of entries)

-- A key that is there only with a value.
abbrev pub optional_entry : Bytes → Option Json → List (Bytes × Json)
optional_entry key none = []
optional_entry key (some v) = (key, v) ∷ []

unfoldable pub items_of : List Json → JsonItems
items_of [] = no_items
items_of (v ∷ vs) = item v (items_of vs)

abbrev pub array_of : List Json → Json
array_of vs = array (items_of vs)

unfoldable pub list_of : JsonItems → List Json
list_of no_items = []
list_of (item v vs) = v ∷ list_of vs

-- `d.items()`
unfoldable pub entries_of : JsonFields → List (Bytes × Json)
entries_of no_fields = []
entries_of (field k v fields) = (k, v) ∷ entries_of fields

pub list_of-items_of : (vs : List Json) → list_of (items_of vs) ≡ vs
unfolding list_of items_of
list_of-items_of [] = refl
list_of-items_of (v ∷ vs) = rw (list_of-items_of vs)

-- A number that is zero: `0`, `-0`, `0.0`, `0e5`.
unfoldable pub is_zero : Bytes → Bool
is_zero [] = true
is_zero (c ∷ s) =
    let rest = is_zero s in
    if c == b'e' || c == b'E' then true else (c == b'0' || c == b'.' || c == b'-') && rest

-- `bool(v)`
unfoldable pub is_truthy : Json → Bool
is_truthy null = false
is_truthy (boolean b) = b
is_truthy (number s) = not (is_zero s)
is_truthy (text s) = not (is_nil s)
is_truthy (array no_items) = false
is_truthy (array (item v vs)) = true
is_truthy (object no_fields) = false
is_truthy (object (field k v rest)) = true

-- `v == "…"`
unfoldable pub is_text : Bytes → Json → Bool
is_text s (text t) = bytes_eq t s
is_text s _ = false

abbrev pub text_of_json : Json → Option Bytes
text_of_json (text s) = some s
text_of_json _ = none

-- The keys of every dictionary are different.
unfoldable mutual
  pub well_formed : Json → Bool
  well_formed null = true
  well_formed (boolean b) = true
  well_formed (number s) = true
  well_formed (text s) = true
  well_formed (array vs) = well_formed_items vs
  well_formed (object entries) = is_distinct (keys entries) && well_formed_fields entries

  pub well_formed_items : JsonItems → Bool
  well_formed_items no_items = true
  well_formed_items (item v vs) = well_formed v && well_formed_items vs

  pub well_formed_fields : JsonFields → Bool
  well_formed_fields no_fields = true
  well_formed_fields (field k v entries) = well_formed v && well_formed_fields entries

pub lookup-well_formed :
    (key : Bytes) (entries : JsonFields) {v : Json}
    → well_formed_fields entries ≡ true
    → lookup key entries ≡ some v
    → well_formed v ≡ true
unfolding lookup well_formed
lookup-well_formed key no_fields h e = cc
lookup-well_formed key (field k w entries) h e =
    let (here, rest) = and-eq-true (well_formed w) (well_formed_fields entries) h in
    elim (Bool-cases (bytes_eq key k)) [
      | inl found ↦
          let e' = rw (found) at e in subst (λ u. well_formed u ≡ true) (some-injective _ _ e') here
      | inr other ↦ let e' = rw (other) at e in lookup-well_formed key entries rest e'
    ]

pub keys-entries_of : (entries : JsonFields) → map (λ e. e.0) (entries_of entries) ≡ keys entries
unfolding keys entries_of
keys-entries_of no_fields = refl
keys-entries_of (field k v entries) = ap (λ ks. k ∷ ks) (keys-entries_of entries)
