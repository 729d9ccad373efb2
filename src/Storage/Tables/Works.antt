-- ===== src/Storage/Tables/Works.antt =====
-- Calls on a store whose transactions all go through.
use wasm_cloud_platform.Common.{ℕ, ◌+◌, ◌≡◌, ap, ◌∙◌, refl, true, ok}
use wasm_cloud_platform.Storage.Tables.{
  Tables, Store, Action, transact, query, update, continue, ◌>>=◌,
}

abbrev pub IsHealthy : Store → Type 0
IsHealthy s = (n : ℕ) → s.completes n ≡ true

module _ {ℓ} {A : Type ℓ} where
  -- the call succeeds, and the next one can
  abbrev pub Works : Action A → Store → Type ℓ
  Works call s = (a : A) × (t : Store) × (call s ≡ (ok a, t)) × IsHealthy t

  pub transact-Works :
      (work : Tables → A × Tables) (s : Store) → IsHealthy s → Works (transact work) s
  unfolding transact
  transact-Works work s h = rw (h s.transactions) ((work s.tables).0, _, refl, h)

module _ {ℓ κ} {A : Type ℓ} {B : Type κ} where
  pub >>=-Works :
      (first : Action A) (rest : A → Action B) (s : Store)
      → Works first s
      → ((a : A) (t : Store) → first s ≡ (ok a, t) → IsHealthy t → Works (rest a) t)
      → Works (first >>= rest) s
  unfolding ◌>>=◌
  >>=-Works first rest s w next =
      let n = next w.0 w.1 w.2 w.3 in
      (n.0, n.1, ap (λ end. continue end.0 rest end.1) w.2 ∙ n.2, n.3)

pub update-healthy :
    (write : Tables → Tables) (s : Store)
    → IsHealthy s
    → update write s
      ≡ (ok tt, record s { tables = write s.tables; transactions = s.transactions + 1 })
unfolding transact
update-healthy write s h = rw (h s.transactions) refl

pub query-healthy {ℓ} :
    {A : Type ℓ} (read : Tables → A) (s : Store)
    → IsHealthy s
    → query read s ≡ (ok (read s.tables), record s { transactions = s.transactions + 1 })
unfolding transact
query-healthy read s h = rw (h s.transactions) refl
