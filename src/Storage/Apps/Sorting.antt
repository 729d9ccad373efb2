-- ===== src/Storage/Apps/Sorting.antt =====
-- Sorting by a key: nothing is lost, and what comes first has the smaller keys.
use wasm_cloud_platform.Common.{
  ℕ, zero, suc, ◌≤◌, List, [], ◌∷◌, All, take, drop, leb, leb→le, inl, inr, Bool-cases, arith,
}
use wasm_cloud_platform.Storage.Apps.{insert_by_key, sort_by_key}

module _ {ℓ} {A : Type ℓ} (key : A → ℕ) where
  module _ (P : A → Type 0) where
    insert_by_key-All : (x : A) (ys : List A) → P x → All P ys → All P (insert_by_key key x ys)
    unfolding insert_by_key
    insert_by_key-All x [] p h = (p, tt)
    insert_by_key-All x (y ∷ ys) p h = ground (arith, insert_by_key-All x ys p h.1)

    pub sort_by_key-All : (xs : List A) → All P xs → All P (sort_by_key key xs)
    unfolding sort_by_key
    sort_by_key-All [] h = tt
    sort_by_key-All (x ∷ xs) h = insert_by_key-All x _ h.0 (sort_by_key-All xs h.1)

  abbrev pub Above : A → List A → Type 0
  Above x = All λ y. key x ≤ key y

  abbrev pub IsSorted : List A → Type 0
  IsSorted [] = Unit
  IsSorted (x ∷ xs) = Above x xs × IsSorted xs

  Above-trans : (x y : A) (ys : List A) → key x ≤ key y → Above y ys → Above x ys
  Above-trans x y [] h a = tt
  Above-trans x y (z ∷ zs) h a = (omega arith, Above-trans x y zs h a.1)

  insert_by_key-IsSorted : (x : A) (ys : List A) → IsSorted ys → IsSorted (insert_by_key key x ys)
  unfolding insert_by_key
  insert_by_key-IsSorted x [] h = (tt, tt)
  insert_by_key-IsSorted x (y ∷ ys) h = elim (Bool-cases (leb (key x) (key y))) [
    | inl e ↦ rw e ((leb→le _ _ e, Above-trans x y ys (leb→le _ _ e) h.0), h)
    | inr e ↦ rw e (
      insert_by_key-All (λ z. key y ≤ key z) x ys (ground arith) h.0,
      insert_by_key-IsSorted x ys h.1,
    )
  ]

  pub sort_by_key-IsSorted : (xs : List A) → IsSorted (sort_by_key key xs)
  unfolding sort_by_key
  sort_by_key-IsSorted [] = tt
  sort_by_key-IsSorted (x ∷ xs) = insert_by_key-IsSorted x _ (sort_by_key-IsSorted xs)

  All-drop : (P : A → Type 0) (n : ℕ) (xs : List A) → All P xs → All P (drop n xs)
  All-drop P zero xs h = h
  All-drop P (suc n) [] h = tt
  All-drop P (suc n) (x ∷ xs) h = All-drop P n xs h.1

  -- in a sorted list, those in front of a cut have the smaller keys
  pub take-drop-IsSorted :
      (n : ℕ) (xs : List A) → IsSorted xs → All (λ x. Above x (drop n xs)) (take n xs)
  take-drop-IsSorted zero xs h = tt
  take-drop-IsSorted (suc n) [] h = tt
  take-drop-IsSorted (suc n) (x ∷ xs) h =
      (All-drop (λ y. key x ≤ key y) n xs h.0, take-drop-IsSorted n xs h.1)
