-- ===== src/Storage/Keys/Laws.antt =====
-- What a table holds after an insertion, and how a key `<name>:<number>` comes apart.
use wasm_cloud_platform.Common.{
  ℕ, zero, suc, ◌+◌, ◌/◌, ◌%◌, ◌≡◌, refl, true, false, some, none, [], ◌∷◌, ◌++◌, Text, Map, arith,
  lookup, nat_key, text_key, ◌==◌, if◌then◌else◌, contains,
}
use wasm_cloud_platform.Storage.Keys.{put, rsplit_once, digits, to_text, starts_with}

pub lookup-put :
    {V : Type 0} (key other : Text) (value : V) (m : Map Text V)
    → lookup other (put key value m) ≡ (if key == other then some value else lookup other m)
unfolding lookup put
lookup-put key other value [] = refl
lookup-put key other value ((held, old) ∷ rest) =
    let ih = lookup-put key other value rest in
    ground (
      arith,
      ih,
      text_key.same_iff held key,
      text_key.same_iff held other,
      text_key.same_iff key other,
    )

pub rsplit_once-none : (c : ℕ) (text : Text) → contains text c ≡ false → rsplit_once c text ≡ none
unfolding rsplit_once
rsplit_once-none c [] h = refl
rsplit_once-none c (x ∷ xs) h = ground (arith, rsplit_once-none c xs)

pub rsplit_once-append :
    (c : ℕ) (front back : Text)
    → contains back c ≡ false
    → rsplit_once c (front ++ c ∷ back) ≡ some (front, back)
unfolding rsplit_once
rsplit_once-append c [] back h = rw (rsplit_once-none c back h) (ground arith)
rsplit_once-append c (x ∷ front) back h = rw (rsplit_once-append c front back h) refl

contains-digits :
    (rounds n : ℕ) (out : Text)
    → contains out 58 ≡ false
    → contains (digits rounds n out) 58 ≡ false
unfolding digits
contains-digits zero n out h = h
contains-digits (suc rounds) n out h =
    ground (arith, contains-digits rounds (n / 10) ((48 + n % 10) ∷ out))

-- a printed number holds no colon
pub contains-to_text : (n : ℕ) → contains (to_text n) 58 ≡ false
unfolding to_text
contains-to_text n = ground (arith, contains-digits 20 n [] refl)

pub starts_with-append : (prefix rest : Text) → starts_with (prefix ++ rest) prefix ≡ true
unfolding starts_with
starts_with-append [] rest = refl
starts_with-append (c ∷ cs) rest = ground (arith, starts_with-append cs rest)
