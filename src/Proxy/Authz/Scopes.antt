-- ===== src/Proxy/Authz/Scopes.antt =====
-- crates/proxy/src/gateway/authz.rs: which scopes a token grants.
use wasm_cloud_platform.Common.{
  ◌≡◌, ◌∙◌, refl, sym, ap, ◌↔◌, ◌⊎◌, Option, none, some, true, All, any-append, ◌++◌, Bool, List,
  [], ◌∷◌, ◌||◌, Text, text_key, any, all, ◌==◌, arith, Bool-cases, inl, inr,
}
use wasm_cloud_platform.Proxy.Authz.{
  Claim, text, array, other, Claims, strings, split_whitespace, text_scopes, array_scopes,
  UserIdentity, insert_sorted, sort, dedup_after, dedup, all_scopes, extract_scopes,
  authorize_scopes,
}

any-insert_sorted :
    (p : Text → Bool) (t : Text) (us : List Text) → any p (insert_sorted t us) ≡ (p t || any p us)
unfolding insert_sorted
any-insert_sorted p t [] = refl
any-insert_sorted p t (u ∷ us) = ground (arith, any-insert_sorted p t us)

any-sort : (p : Text → Bool) (ts : List Text) → any p (sort ts) ≡ any p ts
unfolding sort
any-sort p [] = refl
any-sort p (t ∷ ts) = any-insert_sorted p t (sort ts) ∙ ap (λ b. p t || b) (any-sort p ts)

any-dedup_after :
    (p : Text → Bool) (t : Text) (us : List Text)
    → (p t || any p (dedup_after t us)) ≡ (p t || any p us)
unfolding dedup_after
any-dedup_after p t [] = refl
any-dedup_after p t (u ∷ us) = elim (Bool-cases (t == u)) [
  | inl same ↦
      let same_p = ap p ((text_key.same_iff t u).0 same) in
      rw (same) (ground (arith, same_p, any-dedup_after p u us))
  | inr differs ↦ rw (differs) (ap (λ b. p t || b) (any-dedup_after p u us))
]

any-dedup : (p : Text → Bool) (ts : List Text) → any p (dedup ts) ≡ any p ts
unfolding dedup
any-dedup p [] = refl
any-dedup p (t ∷ ts) = any-dedup_after p t ts

abbrev pub IsIn : {A : Type 0} → A → List A → Type 0
IsIn a [] = ⊥
IsIn a (x ∷ xs) = (x ≡ a) ⊎ IsIn a xs

-- a claim that is a string with this word
abbrev pub HasWord : Option Claim → Text → Type 0
HasWord none r = ⊥
HasWord (some (text s)) r = IsIn r (split_whitespace s)
HasWord (some (array _)) r = ⊥
HasWord (some other) r = ⊥

-- a claim that is an array with this string among its elements
abbrev pub HasElement : Option Claim → Text → Type 0
HasElement none r = ⊥
HasElement (some (text _)) r = ⊥
HasElement (some (array xs)) r = IsIn (some r) xs
HasElement (some other) r = ⊥

-- the scopes that the claims of a token list
abbrev pub IsListed : Claims → Text → Type 0
IsListed c r = HasWord c.scope r ⊎ (HasElement c.scp r ⊎ HasWord c.scp r)

abbrev holds : Text → List Text → Bool
holds r ts = any (λ t. t == r) ts

or-true_iff : (a b : Bool) → ((a || b) ≡ true) ↔ ((a ≡ true) ⊎ (b ≡ true))
or-true_iff a b = elim (Bool-cases a) [
  | inl yes_a ↦ (λ _. inl yes_a, λ _. ground (arith, yes_a))
  | inr no_a ↦ (
    λ h. inr (ground (arith, no_a, h)),
    λ h. elim h [ inl yes_a ↦ ground (arith, yes_a) | inr yes_b ↦ ground (arith, yes_b, no_a) ],
  )
]

holds_iff : (r : Text) (ts : List Text) → (holds r ts ≡ true) ↔ IsIn r ts
holds_iff r [] = (λ h. cc, λ h. absurd h)
holds_iff r (t ∷ ts) =
    let step = or-true_iff (t == r) (holds r ts) in
    let ih = holds_iff r ts in
    (
      λ h. elim (step.0 h) [
        | inl same ↦ inl ((text_key.same_iff t r).0 same)
        | inr later ↦ inr (ih.0 later)
      ],
      λ h. step.1 (elim h [
        | inl same ↦ inl ((text_key.same_iff t r).1 same)
        | inr later ↦ inr (ih.1 later)
      ]),
    )

holds-strings_iff :
    (r : Text) (xs : List (Option Text)) → (holds r (strings xs) ≡ true) ↔ IsIn (some r) xs
unfolding strings
holds-strings_iff r [] = (λ h. cc, λ h. absurd h)
holds-strings_iff r (none ∷ xs) =
    let ih = holds-strings_iff r xs in
    (λ h. inr (ih.0 h), λ h. elim h [ inl wrong ↦ cc | inr later ↦ ih.1 later ])
holds-strings_iff r (some t ∷ xs) =
    let step = or-true_iff (t == r) (holds r (strings xs)) in
    let ih = holds-strings_iff r xs in
    (
      λ h. elim (step.0 h) [
        | inl same ↦ inl (ap some ((text_key.same_iff t r).0 same))
        | inr later ↦ inr (ih.0 later)
      ],
      λ h.
          step.1 (elim h [
            | inl same ↦ inl ((text_key.same_iff t r).1 cc)
            | inr later ↦ inr (ih.1 later)
          ]),
    )

holds-text_scopes_iff :
    (r : Text) (claim : Option Claim) → (holds r (text_scopes claim) ≡ true) ↔ HasWord claim r
unfolding text_scopes
holds-text_scopes_iff r none = (λ h. cc, λ h. absurd h)
holds-text_scopes_iff r (some (text s)) = holds_iff r (split_whitespace s)
holds-text_scopes_iff r (some (array _)) = (λ h. cc, λ h. absurd h)
holds-text_scopes_iff r (some other) = (λ h. cc, λ h. absurd h)

holds-array_scopes_iff :
    (r : Text) (claim : Option Claim) → (holds r (array_scopes claim) ≡ true) ↔ HasElement claim r
unfolding array_scopes
holds-array_scopes_iff r none = (λ h. cc, λ h. absurd h)
holds-array_scopes_iff r (some (text _)) = (λ h. cc, λ h. absurd h)
holds-array_scopes_iff r (some (array xs)) = holds-strings_iff r xs
holds-array_scopes_iff r (some other) = (λ h. cc, λ h. absurd h)

holds-append_iff :
    {P Q : Type 0} (r : Text) (xs ys : List Text)
    → ((holds r xs ≡ true) ↔ P)
    → ((holds r ys ≡ true) ↔ Q)
    → (holds r (xs ++ ys) ≡ true) ↔ (P ⊎ Q)
holds-append_iff r xs ys left right =
    let split = or-true_iff (holds r xs) (holds r ys) in
    let parts = any-append (λ t. t == r) xs ys in
    (
      λ h. elim (split.0 (sym parts ∙ h)) [ inl l ↦ inl (left.0 l) | inr l ↦ inr (right.0 l) ],
      λ h. parts ∙ split.1 (elim h [ inl l ↦ inl (left.1 l) | inr l ↦ inr (right.1 l) ]),
    )

holds-extract_scopes_iff :
    (i : UserIdentity) (r : Text) → (holds r (extract_scopes i) ≡ true) ↔ IsListed i.raw_claims r
unfolding extract_scopes all_scopes
holds-extract_scopes_iff i r =
    let same =
      any-dedup (λ t. t == r) (sort (all_scopes i)) ∙ any-sort (λ t. t == r) (all_scopes i) in
    let listed =
      holds-append_iff r (text_scopes i.raw_claims.scope)
        (array_scopes i.raw_claims.scp ++ text_scopes i.raw_claims.scp)
        (holds-text_scopes_iff r i.raw_claims.scope)
        (holds-append_iff r (array_scopes i.raw_claims.scp) (text_scopes i.raw_claims.scp)
          (holds-array_scopes_iff r i.raw_claims.scp) (holds-text_scopes_iff r i.raw_claims.scp)) in
    (λ h. listed.0 (sym same ∙ h), λ h. same ∙ listed.1 h)

all_iff :
    {P : Text → Type 0} (p : Text → Bool) (rs : List Text)
    → ((r : Text) → (p r ≡ true) ↔ P r)
    → (all p rs ≡ true) ↔ All P rs
all_iff p [] each = (λ _. tt, λ _. refl)
all_iff p (r ∷ rs) each =
    let ih = all_iff p rs each in
    (
      λ h. elim (Bool-cases (p r)) [
        | inl yes_p ↦ ((each r).0 yes_p, ih.0 (ground (arith, yes_p, h)))
        | inr no_p ↦ ground (arith, no_p, h)
      ],
      λ h. ground (arith, (each r).1 h.0, ih.1 h.1),
    )

-- A request passes exactly if the token lists each of the required scopes: as a word of its `scope`,
-- as a string among the elements of its `scp`, or as a word of an `scp` that is itself a string,
-- however often and in whatever order.
pub authorize_scopes-true_iff :
    (i : UserIdentity) (required : List Text)
    → (authorize_scopes i required ≡ true) ↔ All (IsListed i.raw_claims) required
unfolding authorize_scopes
authorize_scopes-true_iff i [] = (λ _. tt, λ _. refl)
authorize_scopes-true_iff i (r ∷ rs) =
    all_iff (λ required. holds required (extract_scopes i)) (r ∷ rs) (holds-extract_scopes_iff i)
