-- ===== src/Common/Sums.antt =====
-- Lists of counts: their sum, and writing one of them.
use Prim.Native.Nat.{ℕ, zero, suc, ◌+◌, ◌≤◌}
use mathlib.Core.Path.{◌≡◌, refl, ap}
use mathlib.Core.Logic.{◌≢◌}
use mathlib.Core.List.{List, [], ◌∷◌}
use mathlib.Core.Option.{none, some}
use native.Mathlib.Omega.{arith}
use wasm_cloud_platform.Common.Lists.{length, get_elem?}

abbrev pub sum : List ℕ → ℕ
sum [] = 0
sum (n ∷ ns) = n + sum ns

abbrev pub set : List ℕ → ℕ → ℕ → List ℕ
set [] i v = []
set (n ∷ ns) zero v = v ∷ ns
set (n ∷ ns) (suc i) v = n ∷ set ns i v

pub sum-set :
    (ns : List ℕ) (i v old : ℕ) → get_elem? ns i ≡ some old → sum (set ns i v) + old ≡ sum ns + v
sum-set [] i v old h = cc
sum-set (n ∷ ns) zero v old h = ground arith
sum-set (n ∷ ns) (suc i) v old h = omega (arith, sum-set ns i v old h)

pub le_sum : (ns : List ℕ) (i old : ℕ) → get_elem? ns i ≡ some old → old ≤ sum ns
le_sum [] i old h = cc
le_sum (n ∷ ns) zero old h = ground arith
le_sum (n ∷ ns) (suc i) old h = omega (arith, le_sum ns i old h)

-- the first `k` stores hold nothing
abbrev pub IsClear : ℕ → List ℕ → Type 0
IsClear zero ns = Unit
IsClear (suc k) [] = Unit
IsClear (suc k) (n ∷ ns) = (n ≡ 0) × IsClear k ns

pub set-IsClear : (k : ℕ) (ns : List ℕ) → IsClear k ns → IsClear (suc k) (set ns k 0)
set-IsClear zero [] h = tt
set-IsClear zero (n ∷ ns) h = (refl, tt)
set-IsClear (suc k) [] h = tt
set-IsClear (suc k) (n ∷ ns) h = (h.0, set-IsClear k ns h.1)

pub sum-eq-zero : (k : ℕ) (ns : List ℕ) → length ns ≤ k → IsClear k ns → sum ns ≡ 0
sum-eq-zero k [] h c = refl
sum-eq-zero zero (n ∷ ns) h c = absurd (omega arith)
sum-eq-zero (suc k) (n ∷ ns) h c = omega (arith, sum-eq-zero k ns (omega arith) c.1)

pub length-set : (ns : List ℕ) (i v : ℕ) → length (set ns i v) ≡ length ns
length-set [] i v = refl
length-set (n ∷ ns) zero v = refl
length-set (n ∷ ns) (suc i) v = ap suc (length-set ns i v)

pub get_elem?-set_ne : (ns : List ℕ) (i j v : ℕ) → i ≢ j → get_elem? (set ns i v) j ≡ get_elem? ns j
get_elem?-set_ne [] i j v h = refl
get_elem?-set_ne (n ∷ ns) zero zero v h = absurd (h refl)
get_elem?-set_ne (n ∷ ns) zero (suc j) v h = refl
get_elem?-set_ne (n ∷ ns) (suc i) zero v h = refl
get_elem?-set_ne (n ∷ ns) (suc i) (suc j) v h = get_elem?-set_ne ns i j v (omega arith)

pub absent-IsClear :
    (k : ℕ) (ns : List ℕ) → get_elem? ns k ≡ none → IsClear k ns → IsClear (suc k) ns
absent-IsClear zero [] absent h = tt
absent-IsClear zero (n ∷ ns) absent h = cc
absent-IsClear (suc k) [] absent h = tt
absent-IsClear (suc k) (n ∷ ns) absent h = (h.0, absent-IsClear k ns absent h.1)
