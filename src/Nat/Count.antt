-- ===== src/Nat/Count.antt =====
-- How often an index stands in a list, and how long a list of different small indices can be.
use fastrg_node.Base.{
  ℕ, zero, suc, ◌≡◌, ◌≤◌, refl, List, [], ◌∷◌, ◌++◌, Bool, true, false, ◌+◌, ◌==◌, ltb,
  if◌then◌else◌, arith, length, take, drop, Bool-cases, inl, inr, take-append-drop, ap, ==_iff,
}

abbrev pub one : Bool → ℕ
one b = if b then 1 else 0

unfoldable pub count : ℕ → List ℕ → ℕ
count i [] = 0
count i (x ∷ xs) = one (x == i) + count i xs

pub count-append : (i : ℕ) (xs ys : List ℕ) → count i (xs ++ ys) ≡ count i xs + count i ys
unfolding count
count-append i [] ys = omega arith
count-append i (x ∷ xs) ys = omega (arith, count-append i xs ys)

pub count-take-drop :
    (i n : ℕ) (xs : List ℕ) → count i (take n xs) + count i (drop n xs) ≡ count i xs
count-take-drop i n xs =
    omega (arith, count-append i (take n xs) (drop n xs), ap (count i) (take-append-drop n xs))

pub count_self : (i : ℕ) (xs : List ℕ) → 1 ≤ count i (i ∷ xs)
unfolding count
count_self i xs = ground arith

pub count_nil : (i : ℕ) → count i [] ≡ 0
unfolding count
count_nil i = refl

pub count_single : (i j : ℕ) → count j (i ∷ []) ≡ one (i == j)
unfolding count
count_single i j = omega arith

-- The list without the first occurrence of an index.
abbrev erase : ℕ → List ℕ → List ℕ
erase i [] = []
erase i (x ∷ xs) = if x == i then xs else x ∷ erase i xs

length-erase : (i : ℕ) (xs : List ℕ) → length xs ≤ length (erase i xs) + 1
length-erase i [] = omega arith
length-erase i (x ∷ xs) = ground (arith, length-erase i xs)

erase_le : (i j : ℕ) (xs : List ℕ) → count j (erase i xs) ≤ count j xs
unfolding count
erase_le i j [] = omega arith
erase_le i j (x ∷ xs) = ground (arith, erase_le i j xs)

erase_self : (i : ℕ) (xs : List ℕ) → count i xs ≤ 1 → count i (erase i xs) ≡ 0
unfolding count
erase_self i [] h = refl
erase_self i (x ∷ xs) h = ground (arith, erase_self i xs)

pub one-true : {b : Bool} → 1 ≤ one b → b ≡ true
one-true {b = true} h = refl
one-true {b = false} h = absurd (omega arith)

pub one_le : (b : Bool) → one b ≤ 1
one_le true = omega arith
one_le false = omega arith

below : (i n : ℕ) → (i == n) ≡ false → one (ltb i (suc n)) ≡ one (ltb i n)
below i n e = ground (arith, e)

below_zero : (i : ℕ) → one (ltb i 0) ≡ 0
below_zero i = ground arith

erase-small :
    (n i : ℕ) (xs : List ℕ)
    → count i xs ≤ one (ltb i (suc n))
    → count i (erase n xs) ≤ one (ltb i n)
erase-small n i xs h = elim (Bool-cases (i == n)) [
  | inl e ↦
      let k = (==_iff i n).0 e in
      let z : count n (erase n xs) ≡ 0 =
        erase_self n xs (omega (arith, one_le (ltb i (suc n)), h, ap (λ j. count j xs) k)) in
      omega (arith, z, ap (λ j. count j (erase n xs)) k)
  | inr e ↦ omega (arith, erase_le n i xs, h, below i n e)
]

-- A list in which every index stands at most once, and none from `n` up, has at most `n` members.
pub length_le : (n : ℕ) (xs : List ℕ) → ((i : ℕ) → count i xs ≤ one (ltb i n)) → length xs ≤ n
length_le zero [] h = omega arith
length_le zero (x ∷ xs) h = omega (arith, h x, count_self x xs, below_zero x)
length_le (suc n) xs h =
    let rest = length_le n (erase n xs) (λ i. erase-small n i xs (h i)) in
    omega (arith, rest, length-erase n xs)
