-- ===== src/Billing/Chain.antt =====
-- What a verified chain is.
use wasm_cloud_platform.Common.{
  ◌≡◌, ◌↔◌, ap, sym, ◌∙◌, refl, List, [], ◌∷◌, ◌++◌, Text, length, ok, text_key, arith,
}
use mathlib.Core.List.{append_assoc}
use wasm_cloud_platform.Storage.Tables.{Bytes, BillingRecord}
use wasm_cloud_platform.Billing.{to_le_bytes, hashed_bytes, compute_hash, verify_from, verify_chain}

recut : (a b c d rest : Text) → a ++ b ≡ c ++ d → a ++ (b ++ rest) ≡ c ++ (d ++ rest)
recut a b c d rest h =
    sym (append_assoc a b rest) ∙ ap (λ ids. ids ++ rest) h ∙ append_assoc c d rest

module _ (sha256_hex : Bytes → Text) where
  -- Each record holds its own hash and the hash of the record before it, the first one `prev`.
  abbrev pub IsLinked : Text → List BillingRecord → Type 0
  IsLinked prev [] = Unit
  IsLinked prev (r ∷ rest) =
      (r.prev_hash ≡ prev)
      × (compute_hash sha256_hex r ≡ r.record_hash)
      × IsLinked r.record_hash rest

  -- the hash of the last record, `prev` without one
  abbrev pub last_of : Text → List BillingRecord → Text
  last_of prev [] = prev
  last_of prev (r ∷ rest) = last_of r.record_hash rest

  pub IsLinked-append :
      (prev : Text) (rs qs : List BillingRecord)
      → IsLinked prev rs
      → IsLinked (last_of prev rs) qs
      → IsLinked prev (rs ++ qs)
  IsLinked-append prev [] qs h k = k
  IsLinked-append prev (r ∷ rs) qs h k = (h.0, h.1, IsLinked-append r.record_hash rs qs h.2 k)

  pub last_of-append :
      (prev : Text) (rs qs : List BillingRecord)
      → last_of prev (rs ++ qs) ≡ last_of (last_of prev rs) qs
  last_of-append prev [] qs = refl
  last_of-append prev (r ∷ rs) qs = last_of-append r.record_hash rs qs

  verify_from-IsLinked :
      (prev : Text) (rs : List BillingRecord)
      → (verify_from sha256_hex prev rs ≡ ok tt) ↔ IsLinked prev rs
  unfolding verify_from
  verify_from-IsLinked prev [] = ground arith
  verify_from-IsLinked prev (r ∷ rs) = ground (
    arith,
    text_key.same_iff r.prev_hash prev,
    text_key.same_iff (compute_hash sha256_hex r) r.record_hash,
    verify_from-IsLinked r.record_hash rs,
  )

  -- `verify_chain` counts the records of a chain exactly if each of them holds its own hash and
  -- the hash of the one before it, the first one the empty text.
  pub verify_chain-ok_iff :
      (rs : List BillingRecord) → (verify_chain sha256_hex rs ≡ ok (length rs)) ↔ IsLinked [] rs
  unfolding verify_chain
  verify_chain-ok_iff rs = ground (arith, verify_from-IsLinked [] rs)

  -- The ids are hashed one behind the other without a length or a separator. A record whose tenant
  -- and app are cut at another place, with the same text in all, has the same hash.
  pub compute_hash-cut :
      (r : BillingRecord) (tenant_id app_id : Text)
      → tenant_id ++ app_id ≡ r.tenant_id ++ r.app_id
      → compute_hash sha256_hex (record r { tenant_id = tenant_id; app_id = app_id })
        ≡ compute_hash sha256_hex r
  unfolding compute_hash hashed_bytes
  compute_hash-cut r tenant_id app_id h =
      ap (λ text. sha256_hex (to_le_bytes 8 r.seq ++ (r.prev_hash ++ text)))
        (recut tenant_id app_id r.tenant_id r.app_id _ h)
