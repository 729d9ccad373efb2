-- ===== src/AppId.antt =====
-- crates/common/src/types.rs, `AppId`: an app's id, `name:version` or `namespace/name:version`, by
-- its bytes.
pub mod Parts
mod Tests
use wasm_cloud_platform.Common.{
  ℕ, Bool, List, [], ◌∷◌, ◌++◌, String, Text, nat_key, ◌==◌, ◌||◌, contains, not, if◌then◌else◌,
  codes, Result, ok, err, guard, ◌>>◌,
}

abbrev pub slash : ℕ
slash = 47

abbrev pub colon : ℕ
colon = 58

-- `AppId::new_validate`: no space, newline or tab, no `>` and no `*`
unfoldable pub new_validate : Text → Result String Text
new_validate [] = err "AppId cannot be empty"
new_validate (c ∷ cs) =
    guard (not (contains (c ∷ cs) 32 || contains (c ∷ cs) 10 || contains (c ∷ cs) 9))
      "AppId cannot contain whitespace"
    >> guard (not (contains (c ∷ cs) 62 || contains (c ∷ cs) 42))
        "AppId cannot contain > or * (invalid in NATS subjects)"
    >> ok (c ∷ cs)

-- `AppId::new_namespaced`; an id that is not valid makes it panic, which is an `err` here
abbrev pub new_namespaced : Text → Text → Text → Result String Text
new_namespaced namespace name version =
    new_validate (namespace ++ slash ∷ (name ++ colon ∷ version))

-- `text.split(c).next()`: what stands before the first `c`
unfoldable pub before : ℕ → Text → Text
before c [] = []
before c (x ∷ xs) = if x == c then [] else x ∷ before c xs

-- what stands behind it
unfoldable pub behind : ℕ → Text → Text
behind c [] = []
behind c (x ∷ xs) = if x == c then xs else behind c xs

unfoldable pub namespace : Text → Text
namespace id = if contains id slash then before slash id else codes "default"

unfoldable pub bare_name : Text → Text
bare_name id = if contains id slash then before slash (behind slash id) else id

unfoldable pub bare_app_name : Text → Text
bare_app_name id = before colon (bare_name id)
