-- ===== src/AppId/Parts.antt =====
-- The parts of an id of crates/common/src/types.rs.
use wasm_cloud_platform.Common.{
  ℕ, ◌≡◌, refl, false, [], ◌∷◌, ◌++◌, Text, nat_key, ◌==◌, ◌||◌, contains, codes, ok, arith,
  Bool-cases, inl, inr,
}
use wasm_cloud_platform.AppId.{
  slash, colon, new_validate, new_namespaced, before, behind, namespace, bare_name, bare_app_name,
}

pub contains-append :
    (xs ys : Text) (c : ℕ) → contains (xs ++ ys) c ≡ (contains xs c || contains ys c)
contains-append [] ys c = refl
contains-append (x ∷ xs) ys c = ground (arith, contains-append xs ys c)

before-append : (xs ys : Text) (c : ℕ) → contains xs c ≡ false → before c (xs ++ c ∷ ys) ≡ xs
unfolding before
before-append [] ys c h = ground arith
before-append (x ∷ xs) ys c h = ground (arith, before-append xs ys c (ground arith))

behind-append : (xs ys : Text) (c : ℕ) → contains xs c ≡ false → behind c (xs ++ c ∷ ys) ≡ ys
unfolding behind
behind-append [] ys c h = ground arith
behind-append (x ∷ xs) ys c h = ground (arith, behind-append xs ys c (ground arith))

before_free : (xs : Text) (c : ℕ) → contains (before c xs) c ≡ false
unfolding before
before_free [] c = refl
before_free (x ∷ xs) c = ground (arith, before_free xs c)

-- The namespace of an id never holds a `/`.
pub namespace_free : (id : Text) → contains (namespace id) slash ≡ false
unfolding namespace
namespace_free id = ground (arith, before_free id slash)

before-contains : (xs : Text) (c d : ℕ) → contains xs d ≡ false → contains (before c xs) d ≡ false
unfolding before
before-contains [] c d h = refl
before-contains (x ∷ xs) c d h = ground (arith, before-contains xs c d (ground arith))

behind-contains : (xs : Text) (c d : ℕ) → contains xs d ≡ false → contains (behind c xs) d ≡ false
unfolding behind
behind-contains [] c d h = refl
behind-contains (x ∷ xs) c d h = ground (arith, behind-contains xs c d (ground arith))

before-past :
    (xs ys : Text) (c d : ℕ)
    → contains xs d ≡ false
    → (c == d) ≡ false
    → before d (xs ++ c ∷ ys) ≡ xs ++ c ∷ before d ys
unfolding before
before-past [] ys c d h other = ground arith
before-past (x ∷ xs) ys c d h other = ground (arith, before-past xs ys c d (ground arith) other)

new_validate-ok : (text : Text) {id : Text} → new_validate text ≡ ok id → id ≡ text
unfolding new_validate
new_validate-ok [] h = cc
new_validate-ok (c ∷ cs) h = ground arith

-- An id that is built from a namespace without `/` and a name without `/` and `:` gives both back,
-- whatever the version holds.
pub new_namespaced-parts :
    (ns name version : Text) {id : Text}
    → new_namespaced ns name version ≡ ok id
    → contains ns slash ≡ false
    → contains name slash ≡ false
    → contains name colon ≡ false
    → (namespace id ≡ ns) × (bare_app_name id ≡ name)
unfolding namespace bare_name bare_app_name
new_namespaced-parts ns name version {id} built h1 h2 h3 =
    let rest : Text = name ++ colon ∷ version in
    let whole : id ≡ ns ++ slash ∷ rest = new_validate-ok (ns ++ slash ∷ rest) {id = id} built in
    rw whole (
      ground (
        arith,
        contains-append ns (slash ∷ rest) slash,
        before-append ns rest slash h1,
        behind-append ns rest slash h1,
        before-past name version colon slash h2 refl,
        before-append name (before slash version) colon h3,
      ))

-- a character that stands nowhere in an id stands nowhere in its parts
pub namespace-contains :
    (id : Text) (d : ℕ)
    → contains (codes "default") d ≡ false
    → contains id d ≡ false
    → contains (namespace id) d ≡ false
unfolding namespace
namespace-contains id d h k = ground (arith, before-contains id slash d k)

pub bare_app_name-contains :
    (id : Text) (d : ℕ) → contains id d ≡ false → contains (bare_app_name id) d ≡ false
unfolding bare_app_name bare_name
bare_app_name-contains id d h = elim (Bool-cases (contains id slash)) [
  | inl qualified ↦
      rw (qualified, bare_name)
        (before-contains (before slash (behind slash id)) colon d
          (before-contains (behind slash id) slash d (behind-contains id slash d h)))
  | inr plain ↦ rw (plain, bare_name) (before-contains id colon d h)
]

pub namespace-append :
    (ns rest : Text) → contains ns slash ≡ false → namespace (ns ++ slash ∷ rest) ≡ ns
unfolding namespace
namespace-append ns rest h =
    ground (arith, contains-append ns (slash ∷ rest) slash, before-append ns rest slash h)
