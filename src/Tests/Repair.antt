-- ===== src/Tests/Repair.antt =====
-- A config that is repaired, and the theorems at it.
use codex_subscription_route.Prelude.{
  ◌⊎◌, ◌≡◌, refl, sym, subst, Bool, true, false, not, ◌&&◌, none, some, List, [], ◌∷◌, Bool-cases,
  inl, inr, and-eq-true, if◌then◌else◌, ok,
}
use mathlib.Core.Option.{some-injective}
use codex_subscription_route.Text.{
  Bytes, codes, bytes_eq, bytes_eq_iff, includes, starts_with, is_utf8, replace_from, count_from,
}
use codex_subscription_route.Json.{
  Json, null, boolean, number, text, array, object, JsonItems, no_items, item, JsonFields,
  no_fields, field, lookup, fields_of, object_of,
}
use codex_subscription_route.Repair.{
  Toml, patched_config, read_config, get, set_field, expected_config, add_provider, with_block,
  direct_provider, Files, Call, repair,
}
use codex_subscription_route.Repair.Idempotent.{EqualDictionaries, repair_idempotent}
use codex_subscription_route.Repair.Keeps.{IsUntouched, IsReplaced, repair-Leaves}

abbrev same_bool : Bool → Bool → Bool
same_bool true b = b
same_bool false b = not b

-- An equality of values that is finer than that of Python.
unfoldable mutual
  same_value : Json → Json → Bool
  same_value null null = true
  same_value (boolean b) (boolean c) = same_bool b c
  same_value (number s) (number t) = bytes_eq s t
  same_value (text s) (text t) = bytes_eq s t
  same_value (array vs) (array ws) = same_items vs ws
  same_value (object vs) (object ws) = same_fields vs ws
  same_value _ _ = false

  same_items : JsonItems → JsonItems → Bool
  same_items no_items no_items = true
  same_items (item v vs) (item w ws) = same_value v w && same_items vs ws
  same_items _ _ = false

  same_fields : JsonFields → JsonFields → Bool
  same_fields no_fields no_fields = true
  same_fields (field k v vs) (field l w ws) = bytes_eq k l && (same_value v w && same_fields vs ws)
  same_fields _ _ = false

lookup-same_fields :
    (vs ws : JsonFields) (key : Bytes) {w : Json}
    → same_fields vs ws ≡ true
    → lookup key ws ≡ some w
    → (x : Json) × (lookup key vs ≡ some x) × (same_value x w ≡ true)
unfolding same_value lookup
lookup-same_fields no_fields no_fields key h e = cc
lookup-same_fields (field k v vs) no_fields key h e = cc
lookup-same_fields no_fields (field l w ws) key h e = cc
lookup-same_fields (field k v vs) (field l w ws) key h e =
    let (names, rest) = and-eq-true (bytes_eq k l) (same_value v w && same_fields vs ws) h in
    let (here, there) = and-eq-true (same_value v w) (same_fields vs ws) rest in
    let same = (bytes_eq_iff k l).0 names in
    elim (Bool-cases (bytes_eq key l)) [
      | inl found ↦
          let e' = rw (found) at e in
          (
            v,
            rw (same, found) refl,
            subst (λ x. same_value v x ≡ true) (some-injective _ _ e') here,
          )
      | inr other ↦
          let e' = rw (other) at e in
          let (x, x_found, x_same) = lookup-same_fields vs ws key there e' in
          (x, rw (same, other) x_found, x_same)
    ]

abbrev original : Bytes
original = codes "a = 1"

abbrev parsed : Json
parsed = object_of ((codes "a", number (codes "1")) ∷ [])

abbrev reparsed : Json
reparsed = object_of (
    (codes "a", number (codes "1"))
    ∷ (codes "model_providers", object_of ((codes "codex_router_spend", direct_provider) ∷ []))
    ∷ [])

abbrev toml : Toml
toml = record {
  loads = λ s.
      if bytes_eq s original
      then some parsed
      else if bytes_eq s (with_block original)
      then some reparsed
      else none;
  equal = same_value;
}

toml-EqualDictionaries : EqualDictionaries toml
unfolding same_value
toml-EqualDictionaries (object vs) entries h =
    (vs, refl, λ key w e. lookup-same_fields vs entries key h e)
toml-EqualDictionaries _ entries h = cc

patched : patched_config toml original ≡ ok (with_block original)
unfolding patched_config read_config get lookup fields_of is_utf8 bytes_eq add_provider
    expected_config set_field same_value includes replace_from count_from starts_with
patched = refl

abbrev files : Files
files = record { config = original; backup = none; temporary = none }

repair_idempotent_example :
    ((repair toml true (record { files = files; calls = [] })).1.files.config ≡ with_block original)
    × (repair toml true (repair toml true (record { files = files; calls = [] })).1
        ≡ (ok false, (repair toml true (record { files = files; calls = [] })).1))
repair_idempotent_example =
    repair_idempotent toml files (with_block original) toml-EqualDictionaries patched

-- Another process writes the config before the second reading.
abbrev calls : List Call
calls =
    record { meanwhile = none; works = true }
    ∷ record { meanwhile = none; works = true }
    ∷ record { meanwhile = none; works = true }
    ∷ record { meanwhile = none; works = true }
    ∷ record { meanwhile = none; works = true }
    ∷ record { meanwhile = none; works = true }
    ∷ record { meanwhile = some (codes "b = 2"); works = true }
    ∷ []

abbrev Known : Bytes → Type 0
Known s = (s ≡ original) ⊎ (s ≡ codes "b = 2")

repair-Leaves_example :
    IsUntouched Known (repair toml true (record { files = files; calls = calls }))
    ⊎ IsReplaced Known toml (repair toml true (record { files = files; calls = calls }))
repair-Leaves_example = repair-Leaves Known toml true files calls (inl refl) (
  λ s e. cc e,
  (
    λ s e. cc e,
    (
      λ s e. cc e,
      (λ s e. cc e, (λ s e. cc e, (λ s e. cc e, (λ s e. inr (sym (some-injective _ _ e)), tt)))),
    ),
  ),
)
