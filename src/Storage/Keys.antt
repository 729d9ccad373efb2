-- ===== src/Storage/Keys.antt =====
-- The texts that the store's keys are made of: `str` and `u64` as Rust's standard library prints,
-- parses, splits and orders them, and a redb table, which keeps its keys in order.
pub mod Decimal
pub mod Laws
use wasm_cloud_platform.Common.{
  ℕ, zero, suc, ◌+◌, ◌-◌, ◌*◌, ◌/◌, ◌%◌, ◌^◌, Bool, true, false, ◌&&◌, ◌||◌, Option, none, some,
  List, [], ◌∷◌, Text, Map, ltb, leb, nat_key, text_key, ◌==◌, if◌then◌else◌,
}

-- `a < b` on `str`
unfoldable pub text_lt : Text → Text → Bool
text_lt [] [] = false
text_lt [] (b ∷ bs) = true
text_lt (a ∷ rest) [] = false
text_lt (a ∷ rest) (b ∷ bs) = ltb a b || a == b && text_lt rest bs

-- `table.insert(key, value)`: a table is read in the order of its keys
unfoldable pub put : {V : Type 0} → Text → V → Map Text V → Map Text V
put key value [] = (key, value) ∷ []
put key value ((held, old) ∷ rest) =
    if held == key
    then (key, value) ∷ rest
    else if text_lt key held
    then (key, value) ∷ (held, old) ∷ rest
    else (held, old) ∷ put key value rest

-- `text.starts_with(prefix)`
unfoldable pub starts_with : Text → Text → Bool
starts_with text [] = true
starts_with [] (p ∷ ps) = false
starts_with (c ∷ cs) (p ∷ ps) = c == p && starts_with cs ps

-- `text.strip_prefix(prefix)`
unfoldable pub strip_prefix : Text → Text → Option Text
strip_prefix text [] = some text
strip_prefix [] (p ∷ ps) = none
strip_prefix (c ∷ cs) (p ∷ ps) = if c == p then strip_prefix cs ps else none

-- `text.rsplit_once(c)`
unfoldable pub rsplit_once : ℕ → Text → Option (Text × Text)
rsplit_once c [] = none
rsplit_once c (x ∷ xs) = elim (rsplit_once c xs) [
  | some parts ↦ some (x ∷ parts.0, parts.1)
  | none ↦ if x == c then some ([], xs) else none
]

-- the digits of a number below `bound`, after those that make `n`
unfoldable pub scan : ℕ → ℕ → Text → Option ℕ
scan bound n [] = some n
scan bound n (c ∷ cs) =
    if leb 48 c && leb c 57 && ltb (n * 10 + (c - 48)) bound
    then scan bound (n * 10 + (c - 48)) cs
    else none

unfoldable pub parse_digits : ℕ → Text → Option ℕ
unfolding scan
parse_digits bound [] = none
parse_digits bound (c ∷ cs) = scan bound 0 (c ∷ cs)

abbrev pub plus : ℕ
plus = 43

-- `text.parse::<u64>()` and `text.parse::<u32>()`, with one past the largest number
unfoldable pub parse_uint : ℕ → Text → Option ℕ
unfolding parse_digits
parse_uint bound [] = none
parse_uint bound (c ∷ cs) = if c == plus then parse_digits bound cs else parse_digits bound (c ∷ cs)

abbrev pub parse_u64 : Text → Option ℕ
parse_u64 = parse_uint (2 ^ 64)

abbrev pub parse_u32 : Text → Option ℕ
parse_u32 = parse_uint (2 ^ 32)

-- the digits of `n`, in front of `out`; one round for each digit
unfoldable pub digits : ℕ → ℕ → Text → Text
digits zero n out = out
digits (suc rounds) n out =
    let rest = digits rounds (n / 10) ((48 + n % 10) ∷ out) in if n == 0 then out else rest

-- `n.to_string()` of a `u64`, which has at most twenty digits
unfoldable pub to_text : ℕ → Text
to_text n = if n == 0 then 48 ∷ [] else digits 20 n []

-- `text.trim_start_matches(c)`
unfoldable pub trim_start_matches : ℕ → Text → Text
trim_start_matches c [] = []
trim_start_matches c (x ∷ xs) = if x == c then trim_start_matches c xs else x ∷ xs
