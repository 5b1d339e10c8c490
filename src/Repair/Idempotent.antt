-- ===== src/Repair/Idempotent.antt =====
-- A config that `patched_config` of scripts/repair_provider_compatibility.py returns is left as it is.
use codex_subscription_route.Prelude.{
  ok-injective, ◌≡◌, refl, sym, subst, true, false, not, Option, none, some, [], arith, Bool-cases,
  inl, inr, ok, >>=-eq-ok, raise_if->>-eq-ok,
}
use codex_subscription_route.Text.{Bytes, bytes_eq, bytes_eq_iff, bytes_eq_self}
use codex_subscription_route.Json.{Json, object, JsonFields, no_fields, field, lookup}
use codex_subscription_route.Repair.{
  Files, perform, replace_config, back_up, cleanup, repair, Toml, unexpected, differs, provider,
  providers_key, direct_provider, read_config, get, providers, set_field, with_field,
  expected_config, with_block, add_provider, keep_or_add, patched_config,
}

-- A value that equals a dictionary is one, with an equal value for every key.
abbrev pub EqualDictionaries : Toml → Type 0
EqualDictionaries toml =
    (v : Json) (entries : JsonFields)
    → toml.equal v (object entries) ≡ true
    → (found : JsonFields) × (v ≡ object found)
      × ((key : Bytes) (w : Json)
          → lookup key entries ≡ some w
          → (x : Json) × (lookup key found ≡ some x) × (toml.equal x w ≡ true))

lookup-set_field :
    (key : Bytes) (value : Json) (entries : JsonFields)
    → lookup key (set_field key value entries) ≡ some value
unfolding lookup set_field
lookup-set_field key value no_fields = rw (bytes_eq_self key)
lookup-set_field key value (field k v entries) = elim (Bool-cases (bytes_eq key k)) [
  | inl here ↦ rw (here) (rw (here) refl)
  | inr other ↦ rw (other) (rw (other) (lookup-set_field key value entries))
]

with_field_lem :
    (key : Bytes) (value v : Json) {w : Json}
    → with_field key value v ≡ ok w
    → (entries : JsonFields) × (w ≡ object entries) × (lookup key entries ≡ some value)
with_field_lem key value (object entries) h =
    (set_field key value entries, sym (ok-injective h), lookup-set_field key value entries)
with_field_lem key value _ h = cc

-- The provider is there in a config that equals the expected one.
provider_there :
    (toml : Toml) (config table parsed : Json) {expected : Json}
    → EqualDictionaries toml
    → expected_config config table ≡ ok expected
    → toml.equal parsed expected ≡ true
    → (found : Json) × (existing : Json) × (providers parsed ≡ ok found)
      × (get provider found ≡ ok (some existing))
      × (toml.equal existing direct_provider ≡ true)
unfolding expected_config get
provider_there toml config table parsed law made same =
    let (inner, inner_made, h1) = >>=-eq-ok (with_field provider direct_provider table) _ made in
    let (outer_entries, outer_is, outer_has) = with_field_lem providers_key inner config h1 in
    let (inner_entries, inner_is, inner_has) =
      with_field_lem provider direct_provider table inner_made in
    let (us, parsed_is, outer_found) =
      law parsed outer_entries (subst (λ e. toml.equal parsed e ≡ true) outer_is same) in
    let (w, w_found, w_same) = outer_found providers_key inner outer_has in
    let (ws, w_is, inner_found) =
      law w inner_entries (subst (λ e. toml.equal w e ≡ true) inner_is w_same) in
    let (x, x_found, x_same) = inner_found provider direct_provider inner_has in
    (w, x, rw (parsed_is, w_found), rw (w_is, x_found), x_same)

-- What `patched_config` returns is returned as it is when it is patched again, if `==` compares
-- dictionaries by their keys and values.
patched_config_idempotent :
    (toml : Toml) (original result : Bytes)
    → EqualDictionaries toml
    → patched_config toml original ≡ ok result
    → patched_config toml result ≡ ok result
unfolding patched_config add_provider
patched_config_idempotent toml original result law h =
    let (config, parsed, h1) = >>=-eq-ok (read_config toml original) _ h in
    let (table, found, h2) = >>=-eq-ok (providers config) _ h1 in
    let (existing, looked, h3) = >>=-eq-ok (get provider table) _ h2 in
    again config table existing parsed found looked h3
  where
    added :
        (config table : Json)
        → add_provider toml original config table ≡ ok result
        → patched_config toml result ≡ ok result
    added config table k =
        let (reread, read, k1) = >>=-eq-ok (read_config toml (with_block original)) _ k in
        let (expected, made, k2) = >>=-eq-ok (expected_config config table) _ k1 in
        let (same, k3) = raise_if->>-eq-ok (not (toml.equal reread expected)) unexpected _ k2 in
        let (w, x, w_found, x_found, x_same) =
          provider_there toml config table reread law made (ground (arith, same)) in
        subst (λ s. patched_config toml s ≡ ok s) (ok-injective k3)
          (rw (read, w_found, x_found, x_same) refl)

    again :
        (config table : Json) (existing : Option Json)
        → read_config toml original ≡ ok config
        → providers config ≡ ok table
        → get provider table ≡ ok existing
        → keep_or_add toml original config table existing ≡ ok result
        → patched_config toml result ≡ ok result
    again config table none read found looked k = added config table k
    again config table (some existing) read found looked k =
        let (same, k1) =
          raise_if->>-eq-ok (not (toml.equal existing direct_provider)) differs _ k in
        subst (λ s. patched_config toml s ≡ ok s) (ok-injective k1)
          (rw (read, found, looked, same) refl)

-- With no failure and no other process: where the config can be patched, `repair` leaves the patched one,
-- and a second `repair` returns no backup and leaves everything as it is.
pub repair_idempotent :
    (toml : Toml) (f : Files) (result : Bytes)
    → EqualDictionaries toml
    → patched_config toml f.config ≡ ok result
    → ((repair toml true (record { files = f; calls = [] })).1.files.config ≡ result)
      × (repair toml true (repair toml true (record { files = f; calls = [] })).1
          ≡ (ok false, (repair toml true (record { files = f; calls = [] })).1))
unfolding repair perform replace_config back_up cleanup
repair_idempotent toml f result law h = elim (Bool-cases (bytes_eq result f.config)) [
  | inl same ↦
      let equal = (bytes_eq_iff result f.config).0 same in
      (rw (h, same) (sym equal), rw (h, same) (rw (h, same) refl))
  | inr different ↦ (
    rw (h, different, bytes_eq_self f.config) refl,
    rw (h, different, bytes_eq_self f.config)
        (rw (patched_config_idempotent toml f.config result law h, bytes_eq_self result) refl),
  )
]
