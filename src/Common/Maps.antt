-- ===== src/Common/Maps.antt =====
-- `HashMap` and `DashMap` as association lists. `insert` overwrites in place, so a key that
-- `insert` alone has put in stands once; no operation here depends on the order of the entries.
use mathlib.Core.Path.{◌≡◌, refl, subst}
use mathlib.Core.Bool.{Bool, true, false}
use mathlib.Core.Logic.{inl, inr}
use mathlib.Core.List.{List, [], ◌∷◌}
use mathlib.Core.Option.{Option, none, some}
use native.Mathlib.Omega.{arith}
use wasm_cloud_platform.Common.Tests.{if◌then◌else◌, Key, ◌==◌, Bool-cases}
use wasm_cloud_platform.Common.Lists.{All}

abbrev pub Map {ℓ} : Type ℓ → Type ℓ → Type ℓ
Map K V = List (K × V)

pub beq_refl {ℓ} : {K : Type ℓ} ⦃e : Key K⦄ (k : K) → (k == k) ≡ true
beq_refl ⦃e⦄ k = (e.same_iff k k).1 refl

module _ {ℓ} {K V : Type ℓ} ⦃e : Key K⦄ where
  unfoldable pub lookup : K → Map K V → Option V
  lookup key [] = none
  lookup key ((held, value) ∷ rest) = if held == key then some value else lookup key rest

  unfoldable pub insert : K → V → Map K V → Map K V
  insert key value [] = (key, value) ∷ []
  insert key value ((held, old) ∷ rest) =
      if held == key then (key, value) ∷ rest else (held, old) ∷ insert key value rest

  unfoldable pub remove : K → Map K V → Map K V
  remove k [] = []
  remove k ((j, w) ∷ m) = if j == k then remove k m else (j, w) ∷ remove k m

  abbrev pub contains_key : K → Map K V → Bool
  contains_key k m = elim (lookup k m) [ none ↦ false | some v ↦ true ]

  -- `map.entry(k).or_insert_with(..)`: the value that the entry holds afterwards
  abbrev pub or_insert : K → V → Map K V → V
  or_insert k v m = elim (lookup k m) [ none ↦ v | some w ↦ w ]

  -- `map.retain(|k, _| keep(k))`
  unfoldable pub retain_keys : (K → Bool) → Map K V → Map K V
  retain_keys keep [] = []
  retain_keys keep ((j, w) ∷ m) = if keep j then (j, w) ∷ retain_keys keep m else retain_keys keep m

  -- `for v in map.values_mut()`
  unfoldable pub map_values : (V → V) → Map K V → Map K V
  map_values f [] = []
  map_values f ((j, w) ∷ m) = (j, f w) ∷ map_values f m

  pub or_insert-map_values :
      (f : V → V) (k : K) (v : V) (m : Map K V)
      → or_insert k (f v) (map_values f m) ≡ f (or_insert k v m)
  unfolding lookup map_values
  or_insert-map_values f k v [] = refl
  or_insert-map_values f k v ((j, w) ∷ m) = elim (Bool-cases (j == k)) [
    | inl same ↦ rw (same, or_insert) refl
    | inr other ↦ rw (other, or_insert) (or_insert-map_values f k v m)
  ]

  pub lookup-insert :
      (key other : K) (value : V) (m : Map K V)
      → lookup other (insert key value m) ≡ (if key == other then some value else lookup other m)
  unfolding lookup insert
  lookup-insert key other value [] = refl
  lookup-insert key other value ((held, old) ∷ rest) =
      let ih = lookup-insert key other value rest in
      ground (arith, ih, e.same_iff held key, e.same_iff held other, e.same_iff key other)

  pub lookup-remove :
      (k j : K) (m : Map K V) → lookup j (remove k m) ≡ (if k == j then none else lookup j m)
  unfolding lookup remove
  lookup-remove k j [] = ground arith
  lookup-remove k j ((i, w) ∷ m) =
      ground (arith, e.same_iff k j, e.same_iff i k, e.same_iff i j, lookup-remove k j m)

  pub lookup-retain_keys :
      (keep : K → Bool) (j : K) (m : Map K V)
      → lookup j (retain_keys keep m) ≡ (if keep j then lookup j m else none)
  unfolding lookup retain_keys
  lookup-retain_keys keep j [] = ground arith
  lookup-retain_keys keep j ((i, w) ∷ m) = elim (Bool-cases (i == j)) [
    | inl same ↦ ground (arith, (e.same_iff i j).0 same, lookup-retain_keys keep j m)
    | inr other ↦ ground (arith, lookup-retain_keys keep j m)
  ]

  module _ {κ} (P : V → Type κ) where
    -- every value of the map has the property
    abbrev pub Values : Map K V → Type κ
    Values = All (λ (kv : K × V). P kv.1)

    pub insert-Values : (k : K) (v : V) (m : Map K V) → P v → Values m → Values (insert k v m)
    unfolding insert
    insert-Values k v [] p h = (p, tt)
    insert-Values k v ((j, w) ∷ m) p h = ground (arith, insert-Values k v m p h.1)

    pub remove-Values : (k : K) (m : Map K V) → Values m → Values (remove k m)
    unfolding remove
    remove-Values k [] h = tt
    remove-Values k ((j, w) ∷ m) h = ground (arith, remove-Values k m h.1)

    pub retain_keys-Values :
        (keep : K → Bool) (m : Map K V) → Values m → Values (retain_keys keep m)
    unfolding retain_keys
    retain_keys-Values keep [] h = tt
    retain_keys-Values keep ((j, w) ∷ m) h = ground (arith, retain_keys-Values keep m h.1)

    pub map_values-Values :
        (f : V → V) → ((v : V) → P (f v)) → (m : Map K V) → Values (map_values f m)
    unfolding map_values
    map_values-Values f h [] = tt
    map_values-Values f h ((j, w) ∷ m) = (h w, map_values-Values f h m)

    pub lookup-Values : (k : K) (m : Map K V) {v : V} → lookup k m ≡ some v → Values m → P v
    unfolding lookup
    lookup-Values k [] found h = cc
    lookup-Values k ((j, w) ∷ m) {v} found h = elim (Bool-cases (j == k)) [
      | inl same ↦ ground arith
      | inr other ↦ lookup-Values k m {v = v} (ground arith) h.1
    ]

    pub or_insert-Values : (k : K) (v : V) (m : Map K V) → P v → Values m → P (or_insert k v m)
    unfolding lookup
    or_insert-Values k v [] p h = p
    or_insert-Values k v ((j, w) ∷ m) p h = elim (Bool-cases (j == k)) [
      | inl same ↦ rw (same, or_insert) h.0
      | inr other ↦ rw (other, or_insert) (or_insert-Values k v m p h.1)
    ]

  module _ {κ} (P : K × V → Type κ) where
    -- every entry of the map has the property
    pub insert-All : (k : K) (v : V) (m : Map K V) → P (k, v) → All P m → All P (insert k v m)
    unfolding insert
    insert-All k v [] p h = (p, tt)
    insert-All k v ((j, w) ∷ m) p h = ground (arith, insert-All k v m p h.1)

    pub remove-All : (k : K) (m : Map K V) → All P m → All P (remove k m)
    unfolding remove
    remove-All k [] h = tt
    remove-All k ((j, w) ∷ m) h = ground (arith, remove-All k m h.1)

    pub lookup-All : (k : K) (m : Map K V) {v : V} → lookup k m ≡ some v → All P m → P (k, v)
    unfolding lookup
    lookup-All k [] found h = cc
    lookup-All k ((j, w) ∷ m) {v} found h = elim (Bool-cases (j == k)) [
      | inl same ↦
          let key : j ≡ k = (e.same_iff j k).0 same in
          let value : w ≡ v = ground arith in subst P (λ i. (key i, value i)) h.0
      | inr other ↦ lookup-All k m {v = v} (ground arith) h.1
    ]
