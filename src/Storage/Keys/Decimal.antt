-- ===== src/Storage/Keys/Decimal.antt =====
-- Printed numbers are read back.
use wasm_cloud_platform.Common.{
  ℕ, zero, suc, ◌+◌, ◌/◌, ◌%◌, ◌^◌, ◌<◌, ◌≡◌, refl, false, some, [], ◌∷◌, Text, arith, inl, inr,
  Bool-cases, nat_key, ◌==◌,
}
use wasm_cloud_platform.Storage.Keys.{scan, parse_digits, parse_uint, digits, to_text, plus}

scan-digits :
    (bound rounds n : ℕ) (out : Text)
    → n < 10 ^ rounds
    → n < bound
    → scan bound 0 (digits rounds n out) ≡ scan bound n out
unfolding scan digits
scan-digits bound zero n out enough fits = ground arith
scan-digits bound (suc rounds) n out enough fits =
    ground (arith, scan-digits bound rounds (n / 10) ((48 + n % 10) ∷ out))

parse_uint-digits :
    (bound rounds n c : ℕ) (out : Text)
    → (c == plus) ≡ false
    → parse_uint bound (digits rounds n (c ∷ out)) ≡ scan bound 0 (digits rounds n (c ∷ out))
unfolding digits parse_uint parse_digits
parse_uint-digits bound zero n c out h = ground arith
parse_uint-digits bound (suc rounds) n c out h = elim (Bool-cases (n == 0)) [
  | inl e ↦ rw (e, h) refl
  | inr e ↦ rw e (parse_uint-digits bound rounds (n / 10) (48 + n % 10) (c ∷ out) (ground arith))
]

parse_digits-digits :
    (bound rounds n : ℕ)
    → (n == 0) ≡ false
    → n < 10 ^ suc rounds
    → n < bound
    → parse_uint bound (digits (suc rounds) n []) ≡ some n
unfolding digits scan
parse_digits-digits bound rounds n e enough fits =
    rw (e, parse_uint-digits bound rounds (n / 10) (48 + n % 10) [] (ground arith))
      (ground
        (arith, scan-digits bound rounds (n / 10) ((48 + n % 10) ∷ []) (omega arith) (omega arith)))

-- a printed number below the bound is read back as the same number
pub parse_uint-to_text :
    (bound n : ℕ) → n < bound → n < 2 ^ 64 → parse_uint bound (to_text n) ≡ some n
unfolding to_text parse_uint parse_digits scan
parse_uint-to_text bound n fits small = elim (Bool-cases (n == 0)) [
  | inl e ↦ rw e (ground arith)
  | inr e ↦ rw e (parse_digits-digits bound 19 n e (omega arith) fits)
]
