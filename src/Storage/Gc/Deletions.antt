-- ===== src/Storage/Gc/Deletions.antt =====
-- What the deletions of the collector of old versions leave.
use wasm_cloud_platform.Common.{
  ℕ, ◌≡◌, ap, sym, ◌∙◌, refl, Bool, true, false, not, ◌&&◌, List, [], ◌∷◌, Text, Map, arith, lookup,
  remove, lookup-remove, contains, any, length, All, Values, Result, ok, err, leb, text_key,
  nat_key, if◌then◌else◌, inl, inr, Bool-cases,
}
use wasm_cloud_platform.AppId.{colon, before}
use wasm_cloud_platform.Storage.Keys.{starts_with}
use wasm_cloud_platform.Storage.Tables.{Tables, Store, StorageError, Action, pure}
use wasm_cloud_platform.Storage.Tables.Triples.{Ends, Triple, transact-Triple, >>=-Triple}
use wasm_cloud_platform.Storage.Apps.{keys, list_apps}
use wasm_cloud_platform.Storage.Gc.{
  VersionEntry, GcStats, is_of_app, has_active_instances, delete_artifact_by_key,
  delete_raw_wasm_by_key, delete_config_by_key, counted, is_ok, delete_version, gc_versions,
  candidates_to_delete, gc_apps,
}

-- whether a configuration of some version of the key's app is stored
abbrev pub is_configured : Tables → Text → Bool
is_configured t key = any (is_of_app key) (keys t.configs)

pub is_of_app_self : (key : Text) → is_of_app key key ≡ contains key colon
unfolding starts_with before
is_of_app_self [] = refl
is_of_app_self (c ∷ cs) = ground (arith, is_of_app_self cs)

remove-absent :
    {V : Type 0} (key : Text) (m : Map Text V) → contains (keys m) key ≡ false → remove key m ≡ m
unfolding remove
remove-absent key [] h = refl
remove-absent key ((k, v) ∷ m) h = ground (arith, remove-absent key m)

any-contains :
    (p : Text → Bool) (key : Text) (xs : List Text)
    → any p xs ≡ false
    → p key ≡ true
    → contains xs key ≡ false
any-contains p key [] h e = refl
any-contains p key (x ∷ xs) h e = ground (arith, text_key.same_iff x key, any-contains p key xs)

module _ (before : Tables) (doomed : Text → Bool) where
  -- Only artifacts that are doomed and whose app has no configuration may be gone.
  pub record IsKept (t : Tables) : Type 0 where
    pub configs : t.configs ≡ before.configs
    pub artifacts :
        (key : Text)
        → (doomed key && not (is_configured before key)) ≡ false
        → lookup key t.artifacts ≡ lookup key before.artifacts
    pub routes : t.routes ≡ before.routes
    pub schema_meta : t.schema_meta ≡ before.schema_meta

  abbrev Keeps {ℓ} : {A : Type ℓ} → Action A → Type 0
  Keeps call = Triple IsKept call (λ _. IsKept) IsKept

  abbrev pub IsCandidate : Text → Type 0
  IsCandidate key = (contains key colon ≡ true) × (doomed key ≡ true)

  has_active_instances-IsKept :
      (key : Text)
      → Triple IsKept
          (has_active_instances key)
          (λ active t. (active ≡ is_configured before key) × IsKept t)
          IsKept
  unfolding has_active_instances list_apps
  has_active_instances-IsKept key =
      >>=-Triple (λ apps t. (apps ≡ keys before.configs) × IsKept t) _ _ _ _ _
        (transact-Triple _ _ _ _ (λ t k. (ap keys k.configs, k)) (λ t k. k))
        λ apps s p. (ap (any (is_of_app key)) p.0, p.1)

  counted-Ends :
      (end : Result StorageError (Unit {0}) × Store)
      → Ends (λ _. IsKept) IsKept end
      → Ends (λ _. IsKept) IsKept (counted end)
  counted-Ends (ok done, s) k = k
  counted-Ends (err e, s) k = k

  is_ok-Keeps : (call : Action (Unit {0})) → Keeps call → Keeps (is_ok call)
  unfolding is_ok
  is_ok-Keeps call h s p = counted-Ends (call s) (h s p)

  delete_version-Keeps :
      (key : Text) (stats : GcStats)
      → IsCandidate key
      → is_configured before key ≡ false
      → Keeps (delete_version key stats)
  unfolding delete_version delete_artifact_by_key delete_raw_wasm_by_key delete_config_by_key
  delete_version-Keeps key stats c h =
      >>=-Triple (λ _. IsKept) _ _ _ _ _
        (transact-Triple _ _ _ _
          (λ t k. record {
            configs = k.configs;
            artifacts = λ other e. ground (
              arith,
              lookup-remove key other t.artifacts,
              text_key.same_iff key other,
              k.artifacts other e,
            );
            routes = k.routes;
            schema_meta = k.schema_meta;
          })
          (λ t k. k))
        λ _.
          >>=-Triple (λ _. IsKept) _ _ _ _ _
            (is_ok-Keeps _ (
              transact-Triple _ _ _ _
                (λ t k. record {
                  configs = k.configs;
                  artifacts = k.artifacts;
                  routes = k.routes;
                  schema_meta = k.schema_meta;
                })
                (λ t k. k)))
            λ raw.
              >>=-Triple (λ _. IsKept) _ _ _ _ _
                (is_ok-Keeps _ (
                  transact-Triple _ _ _ _
                    (λ t k. record {
                      configs = remove_config t k.configs;
                      artifacts = k.artifacts;
                      routes = k.routes;
                      schema_meta = k.schema_meta;
                    })
                    (λ t k. k)))
                λ configs s k. k
    where
      absent : contains (keys before.configs) key ≡ false
      absent = any-contains (is_of_app key) key (keys before.configs) h (is_of_app_self key ∙ c.0)

      remove_config :
          (t : Tables) → t.configs ≡ before.configs → remove key t.configs ≡ before.configs
      remove_config t e = ap (remove key) e ∙ remove-absent key before.configs absent

  gc_version-Keeps :
      (key : Text) (stats : GcStats) (active : Bool)
      → IsCandidate key
      → active ≡ is_configured before key
      → Keeps (if active then pure stats else delete_version key stats)
  gc_version-Keeps key stats true c e = λ s k. k
  gc_version-Keeps key stats false c e = delete_version-Keeps key stats c (sym e)

  gc_versions-Keeps :
      (entries : List VersionEntry) (stats : GcStats)
      → All (λ (e : VersionEntry). IsCandidate e.key) entries
      → Keeps (gc_versions entries stats)
  unfolding gc_versions
  gc_versions-Keeps [] stats cs s k = k
  gc_versions-Keeps (entry ∷ entries) stats cs s k =
      >>=-Triple _ _ _ _ _ _ (has_active_instances-IsKept entry.key)
        (λ active u p.
          >>=-Triple (λ _. IsKept) (λ _. IsKept) IsKept IsKept
            (if active then pure stats else delete_version entry.key stats) (gc_versions entries)
            (gc_version-Keeps entry.key stats active cs.0 p.0)
            (λ done. gc_versions-Keeps entries done cs.1) u p.1)
        s k

  pub gc_apps-Keeps :
      (keep : ℕ) (inventory : Map Text (List VersionEntry)) (stats : GcStats)
      → Values
          (λ versions.
            All (λ (e : VersionEntry). IsCandidate e.key) (candidates_to_delete keep versions))
          inventory
      → Keeps (gc_apps keep inventory stats)
  unfolding gc_apps
  gc_apps-Keeps keep [] stats cs = λ s k. k
  gc_apps-Keeps keep ((app_name, versions) ∷ rest) stats cs =
      >>=-Triple (λ _. IsKept) (λ _. IsKept) IsKept IsKept
        (if leb (length versions) keep
          then pure stats
          else gc_versions (candidates_to_delete keep versions) stats)
        (gc_apps keep rest)
        (elim (Bool-cases (leb (length versions) keep)) [
          | inl e ↦ rw e (λ s k. k)
          | inr e ↦ rw e (gc_versions-Keeps (candidates_to_delete keep versions) stats cs.0)
        ])
        λ done. gc_apps-Keeps keep rest done cs.1
