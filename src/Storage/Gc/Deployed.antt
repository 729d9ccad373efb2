-- ===== src/Storage/Gc/Deployed.antt =====
-- Which apps count as deployed, before and after the collector.
use wasm_cloud_platform.Common.{
  ℕ, ◌≡◌, ap, sym, ◌∙◌, refl, Bool, true, false, not, ◌&&◌, ◌||◌, List, [], ◌∷◌, ◌++◌, Text, Map,
  arith, lookup, remove, retain_keys, lookup-retain_keys, lookup-remove, contains_key, contains,
  filter, text_key, beq_refl, subst,
}
use wasm_cloud_platform.AppId.{colon}
use wasm_cloud_platform.Storage.Keys.{starts_with}
use wasm_cloud_platform.Storage.Tables.{Tables, ◌>>=◌}
use wasm_cloud_platform.Storage.Tables.Triples.{Triple, transact-Triple, >>=-Triple, Ends-mono}
use wasm_cloud_platform.Storage.Apps.{keys, list_apps}
use wasm_cloud_platform.Storage.Gc.{
  undeploy, has_prefix, remove_unless, PurgedTable, artifacts_table, configs_table, meta_table,
  purge_app_state, is_undeployed, deployed_of, list_deployed_apps,
}
use wasm_cloud_platform.Storage.Gc.Purge.{IsPurged, purge_app_state-purges}

-- whether an app has no undeploy marker
abbrev pub is_deployed : Tables → Text → Bool
is_deployed t id = not (contains_key (undeploy ++ id) t.schema_meta)

deployed_of-filter :
    (t : Tables) (ids : List Text)
    → Triple
        (λ held. held ≡ t)
        (deployed_of ids)
        (λ found held. (found ≡ filter (is_deployed t) ids) × (held ≡ t))
        (λ held. held ≡ t)
unfolding deployed_of is_undeployed
deployed_of-filter t [] s e = (refl, e)
deployed_of-filter t (id ∷ ids) s e =
    >>=-Triple (λ out held. (out ≡ contains_key (undeploy ++ id) t.schema_meta) × (held ≡ t)) _ _ _
      _ _
      (transact-Triple _ _ _ _
        (λ held e. (ap (λ h. contains_key (undeploy ++ id) h.schema_meta) e, e)) (λ held e. e))
      (λ out s p.
        >>=-Triple _ _ _ _ _ _ (deployed_of-filter t ids)
          (λ rest u q. (ground (arith, p.0, q.0), q.1)) s p.1)
      s e

-- `list_deployed_apps` returns the ids with a configuration and without an undeploy marker, and
-- changes nothing.
pub list_deployed_apps-filter :
    (t : Tables)
    → Triple
        (λ held. held ≡ t)
        list_deployed_apps
        (λ ids held. (ids ≡ filter (is_deployed t) (keys t.configs)) × (held ≡ t))
        (λ held. held ≡ t)
unfolding list_deployed_apps list_apps
list_deployed_apps-filter t =
    >>=-Triple (λ ids held. (ids ≡ keys t.configs) × (held ≡ t)) _ _ _ _ _
      (transact-Triple _ _ _ _ (λ held e. (ap (λ h. keys h.configs) e, e)) (λ held e. e))
      λ ids s p.
        Ends-mono (deployed_of ids s) (λ found held q. (q.0 ∙ ap (filter (is_deployed t)) p.0, q.1))
          (λ held e. e) (deployed_of-filter t ids s p.1)

starts_with-longer : (text rest : Text) (c : ℕ) → starts_with text (text ++ c ∷ rest) ≡ false
unfolding starts_with
starts_with-longer [] rest c = refl
starts_with-longer (x ∷ xs) rest c = ground (arith, starts_with-longer xs rest c)

contains-keys-retain_keys :
    {V : Type 0} (keep : Text → Bool) (id : Text) (m : Map Text V)
    → keep id ≡ true
    → contains (keys (retain_keys keep m)) id ≡ contains (keys m) id
unfolding retain_keys
contains-keys-retain_keys keep id [] h = refl
contains-keys-retain_keys keep id ((k, v) ∷ m) h =
    ground (arith, text_key.same_iff k id, contains-keys-retain_keys keep id m h)

contains-filter :
    (keep : Text → Bool) (id : Text) (ids : List Text)
    → contains (filter keep ids) id ≡ (keep id && contains ids id)
contains-filter keep id [] = ground arith
contains-filter keep id (x ∷ xs) =
    ground (arith, text_key.same_iff x id, contains-filter keep id xs)

-- the prefix of an app's own id is longer than the id
keeps_own : (id : Text) → not (has_prefix id id) ≡ true
keeps_own id = rw (starts_with-longer id [] colon) refl

keeps_or : (id : Text) (b : Bool) → (not (has_prefix id id) || b) ≡ true
keeps_or id b = rw (keeps_own id) refl

purged_is_deployed :
    (id : Text) (before t : Tables)
    → t.schema_meta ≡ remove (undeploy ++ id) before.schema_meta
    → is_deployed t id ≡ true
purged_is_deployed id before t e =
    rw
      (
        e,
        contains_key,
        lookup-remove (undeploy ++ id) (undeploy ++ id) before.schema_meta,
        beq_refl (undeploy ++ id),
      )
      refl

-- `t` after the purge of `id`, and the ids that are then listed
abbrev pub OwnIsKept : Text → Tables → List Text → Tables → Type 0
OwnIsKept id before ids t =
    (contains ids id ≡ true)
    × (lookup id t.artifacts ≡ lookup id before.artifacts)
    × (lookup id t.configs ≡ lookup id before.configs)

IsPurged-own :
    (skips : PurgedTable → Text → Bool) (id : Text) (before t : Tables)
    → contains (keys before.configs) id ≡ true
    → skips meta_table (undeploy ++ id) ≡ false
    → IsPurged skips id before t
    → OwnIsKept id before (filter (is_deployed t) (keys t.configs)) t
IsPurged-own skips id before t stored marked p = (
  rw
      (
        contains-filter (is_deployed t) id (keys t.configs),
        purged_is_deployed id before t (p.schema_meta ∙ rw (marked, remove_unless) refl),
        p.configs,
        contains-keys-retain_keys (λ key. not (has_prefix id key) || skips configs_table key) id
            before.configs (keeps_or id (skips configs_table id)),
      )
      stored,
  rw
      (
        p.artifacts,
        lookup-retain_keys (λ key. not (has_prefix id key) || skips artifacts_table key) id
            before.artifacts,
        keeps_own id,
      )
      refl,
  rw
      (
        p.configs,
        lookup-retain_keys (λ key. not (has_prefix id key) || skips configs_table key) id
            before.configs,
        keeps_own id,
      )
      refl,
)

-- Every call of the repository passes the whole id, `<name>:<version>`, to `mark_undeployed`, and the
-- collector passes what it was given to `purge_app_state`, which looks for keys that go on with a
-- colon behind it. So after a successful purge, one that did not fail at the marker unnoticed, the
-- app's own configuration and artifact are still stored; its marker is gone, and
-- `list_deployed_apps` lists the app again.
pub purge_app_state-revives :
    (skips : PurgedTable → Text → Bool) (id : Text) (before : Tables)
    → contains (keys before.configs) id ≡ true
    → skips meta_table (undeploy ++ id) ≡ false
    → Triple
        (λ t. t ≡ before)
        (purge_app_state skips id >>= λ _. list_deployed_apps)
        (OwnIsKept id before)
        (λ _. Unit)
purge_app_state-revives skips id before stored marked =
    >>=-Triple (λ _. IsPurged skips id before) _ _ _ _ _
      (λ s e.
        Ends-mono (purge_app_state skips id s) (λ _ t p. p) (λ t p. tt)
          (purge_app_state-purges skips id before s e))
      λ _ s p.
        Ends-mono (list_deployed_apps s)
          (λ ids t q.
            subst (λ held. OwnIsKept id before ids held) (sym q.1)
              (subst (λ found. OwnIsKept id before found s.tables) (sym q.0)
                (IsPurged-own skips id before s.tables stored marked p)))
          (λ t q. tt) (list_deployed_apps-filter s.tables s refl)
