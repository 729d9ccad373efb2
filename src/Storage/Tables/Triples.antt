-- ===== src/Storage/Tables/Triples.antt =====
-- What holds of the tables after a call, by its outcome: the rules for a transaction, for a chain
-- of calls and for a loop of calls.
use wasm_cloud_platform.Common.{◌≡◌, refl, List, [], ◌∷◌, Result, ok, err, inl, inr, Bool-cases}
use wasm_cloud_platform.Storage.Tables.{
  Tables, Store, StorageError, Action, transact, lift, continue, for_each, ◌>>=◌,
}

module _ {ℓ} {A : Type ℓ} where
  -- `Q` of the value and the tables after a success, `R` of the tables after an error
  abbrev pub Ends :
      (A → Tables → Type 0) → (Tables → Type 0) → Result StorageError A × Store → Type 0
  Ends Q R (ok a, s) = Q a s.tables
  Ends Q R (err e, s) = R s.tables

  -- the postcondition of a call that does not succeed
  abbrev pub Never : A → Tables → Type 0
  Never a t = ⊥

  abbrev pub Triple :
      (Tables → Type 0) → Action A → (A → Tables → Type 0) → (Tables → Type 0) → Type 0
  Triple P call Q R = (s : Store) → P s.tables → Ends Q R (call s)

  module _ (P : Tables → Type 0) (Q : A → Tables → Type 0) (R : Tables → Type 0) where
    pub transact-Triple :
        (work : Tables → A × Tables)
        → ((t : Tables) → P t → Q (work t).0 (work t).1)
        → ((t : Tables) → P t → R t)
        → Triple P (transact work) Q R
    unfolding transact
    transact-Triple work done failed s p = elim (Bool-cases (s.completes s.transactions)) [
      | inl e ↦ rw e (done s.tables p)
      | inr e ↦ rw e (failed s.tables p)
    ]

    pub lift-Triple :
        (r : Result StorageError A)
        → ((a : A) (t : Tables) → r ≡ ok a → P t → Q a t)
        → ((t : Tables) → P t → R t)
        → Triple P (lift r) Q R
    lift-Triple (ok a) done failed s p = done a s.tables refl p
    lift-Triple (err e) done failed s p = failed s.tables p

module _ {ℓ κ} {A : Type ℓ} {B : Type κ} (Q : A → Tables → Type 0) (Q' : B → Tables → Type 0)
    (R : Tables → Type 0) where
  continue-Triple :
      (rest : A → Action B) (end : Result StorageError A × Store)
      → Ends Q R end
      → ((a : A) → Triple (Q a) (rest a) Q' R)
      → Ends Q' R (continue end.0 rest end.1)
  continue-Triple rest (ok a, s) q next = next a s q
  continue-Triple rest (err e, s) r next = r

  pub >>=-Triple :
      (P : Tables → Type 0) (first : Action A) (rest : A → Action B)
      → Triple P first Q R
      → ((a : A) → Triple (Q a) (rest a) Q' R)
      → Triple P (first >>= rest) Q' R
  unfolding ◌>>=◌
  >>=-Triple P first rest begin next s p = continue-Triple rest (first s) (begin s p) next

pub Ends-mono {ℓ} :
    {A : Type ℓ} {Q Q' : A → Tables → Type 0} {R R' : Tables → Type 0}
    (end : Result StorageError A × Store)
    → ((a : A) (t : Tables) → Q a t → Q' a t)
    → ((t : Tables) → R t → R' t)
    → Ends Q R end
    → Ends Q' R' end
Ends-mono (ok a, s) done failed q = done a s.tables q
Ends-mono (err e, s) done failed r = failed s.tables r

-- `I` holds of what the loop has still to do
pub for_each-Triple {ℓ} :
    {A : Type ℓ} (I : List A → Tables → Type 0) (R : Tables → Type 0) (body : A → Action (Unit {0}))
    → ((x : A) (xs : List A) → Triple (I (x ∷ xs)) (body x) (λ _. I xs) R)
    → (xs : List A) → Triple (I xs) (for_each body xs) (λ _. I []) R
unfolding for_each
for_each-Triple I R body step [] s p = p
for_each-Triple I R body step (x ∷ xs) s p =
    >>=-Triple (λ _. I xs) (λ _. I []) R (I (x ∷ xs)) (body x) (λ _. for_each body xs) (step x xs)
      (λ _. for_each-Triple I R body step xs) s p
