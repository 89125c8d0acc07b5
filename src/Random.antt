-- ===== src/Random.antt =====
-- include/common/random.h: the random numbers of 48 bits of state. `next_double` is left out.
use Prim.Native.Nat.{bit_or, bit_xor}
use Prim.Native.Char.{Char}
use native.Mathlib.Nat.{mod-lt}
use myblockchain.Prelude.{
  ltb, ℕ, zero, suc, ◌+◌, ◌-◌, ◌*◌, ◌/◌, ◌%◌, ◌^◌, ◌≤◌, ◌<◌, ◌≡◌, refl, ap, List, [], ◌∷◌, Option,
  none, some, arith, ◌==◌, if◌then◌else◌, length, String, Bool, true, false, Bool-cases, inl, inr,
  All,
}

-- The value of a `uint64_t`.
abbrev word : ℕ → ℕ
word n = n % 18446744073709551616

-- a - b of two `uint64_t`.
abbrev minus : ℕ → ℕ → ℕ
minus a b = word (a + 18446744073709551616 - b)

-- The constructor's `init_seed`; the mask has 48 bits.
unfoldable pub init_seed : ℕ → ℕ
init_seed seed = bit_xor seed 0x5DEECE66D % 281474976710656

-- The number and the state; `bits` is at most 48.
unfoldable pub next : ℕ → ℕ → ℕ × ℕ
next bits seed =
    let seed1 = word (word (seed * 0x5DEECE66D) + 0xB) % 281474976710656 in
    (seed1 / 2 ^ (48 - bits), seed1)

-- C++ leaves open which of the two calls comes first.
unfoldable pub next_word : Bool → ℕ → ℕ × ℕ
next_word left_first seed =
    let (x, seed1) = next 32 seed in
    let (y, seed2) = next 32 seed1 in
    (
      if left_first then word (word (x * 4294967296) + y) else word (word (y * 4294967296) + x),
      seed2,
    )

-- `n % (b - a + 1) + a`, with the state; `none` is a division by zero.
abbrev scale : ℕ → ℕ → ℕ → ℕ → Option (ℕ × ℕ)
scale n a b seed =
    let span = word (minus b a + 1) in if span == 0 then none else some (word (n % span + a), seed)

unfoldable pub uniform_dist : Bool → ℕ → ℕ → ℕ → Option (ℕ × ℕ)
uniform_dist left_first a b seed =
    if a == b
    then some (a, seed)
    else (let (n, seed1) = next_word left_first seed in scale n a b seed1)

-- `str[k]`
abbrev pub get_elem? {ℓ} : {A : Type ℓ} → List A → ℕ → Option A
get_elem? [] k = none
get_elem? (x ∷ xs) zero = some x
get_elem? (x ∷ xs) (suc k) = get_elem? xs k

-- The loop of `rand_str`, with the number of characters that are missing.
unfoldable pub rand_loop : {A : Type 0} → Bool → ℕ → List A → ℕ → Option (List A × ℕ)
rand_loop left_first zero str seed = some ([], seed)
rand_loop left_first (suc n) str seed =
    elim (uniform_dist left_first 0 (minus (length str) 1) seed) [
      | none ↦ none
      | some (k, seed1) ↦ elim (get_elem? str k) [
        | none ↦ none
        | some c ↦ elim (rand_loop left_first n str seed1) [
          | none ↦ none
          | some (result, seed2) ↦ some (c ∷ result, seed2)
        ]
      ]
    ]

-- The counter of the loop has 32 bits: for a length that has more it never ends, which is `none`.
unfoldable pub rand_str : {A : Type 0} → Bool → ℕ → List A → ℕ → Option (List A × ℕ)
rand_str left_first n str seed = if ltb n 4294967296 then rand_loop left_first n str seed else none

abbrev characters : String → List Char
characters String.[] = []
characters (String.◌∷◌ c s) = c ∷ characters s

abbrev pub alpha : List Char
alpha = characters "0123456789abcdefghijklmnopqrstuvwxyzABCDEFGHIJKLMNOPQRSTUVWXYZ"

unfoldable pub a_string : Bool → ℕ → ℕ → ℕ → Option (List Char × ℕ)
a_string left_first min_len max_len seed = elim (uniform_dist left_first min_len max_len seed) [
  | none ↦ none
  | some (len, seed1) ↦ rand_str left_first len alpha seed1
]

-- The two draws can be in either order too.
unfoldable pub non_uniform_distribution : Bool → Bool → ℕ → ℕ → ℕ → ℕ → Option (ℕ × ℕ)
non_uniform_distribution draw_first left_first a x y seed =
    let lo1 = if draw_first then zero else x in
    let hi1 = if draw_first then a else y in
    let lo2 = if draw_first then x else zero in
    let hi2 = if draw_first then y else a in
    elim (uniform_dist left_first lo1 hi1 seed) [
      | none ↦ none
      | some (m, seed1) ↦ elim (uniform_dist left_first lo2 hi2 seed1) [
        | none ↦ none
        | some (n, seed2) ↦ scale (bit_or m n) x y seed2
      ]
    ]

-- A number that is brought within two bounds.
folded :
    (n a b seed : ℕ)
    → a ≤ b
    → b < 18446744073709551615
    → (scale n a b seed ≡ some (n % (b - a + 1) + a, seed))
      × (a ≤ n % (b - a + 1) + a)
      × (n % (b - a + 1) + a ≤ b)
folded n a b seed h k =
    let r = n % (b - a + 1) in
    let span : word (minus b a + 1) ≡ b - a + 1 = omega arith in
    let full : (b - a + 1 == 0) ≡ false = ground arith in
    let below : r < b - a + 1 = mod-lt n (omega arith) in
    let small : word (r + a) ≡ r + a = omega (arith, below, h, k) in
    (rw (span, full, small) refl, omega arith, omega (arith, below, h))

-- Between two bounds of 64 bits that do not span all of them a number within the bounds is drawn.
pub uniform_dist_lem :
    (left_first : Bool) (a b seed : ℕ)
    → a ≤ b
    → b < 18446744073709551615
    → (n seed1 : ℕ) × (uniform_dist left_first a b seed ≡ some (n, seed1)) × (a ≤ n) × (n ≤ b)
unfolding uniform_dist
uniform_dist_lem left_first a b seed h k =
    let (n, seed1) = next_word left_first seed in
    let (result, low, high) = folded n a b seed1 h k in
    elim (Bool-cases (a == b)) [
      | inl same ↦ (a, seed, rw (uniform_dist, same) refl, omega arith, h)
      | inr apart ↦ (n % (b - a + 1) + a, seed1, rw (uniform_dist, apart) result, low, high)
    ]

get_elem?_lem :
    {A : Type 0} (xs : List A) (k : ℕ) → k < length xs → (x : A) × (get_elem? xs k ≡ some x)
get_elem?_lem [] k h = absurd (omega arith)
get_elem?_lem (x ∷ xs) zero h = (x, refl)
get_elem?_lem (x ∷ xs) (suc k) h = get_elem?_lem xs k (omega arith)

-- From a text of at least one character and less than 2^63 a text of the given length is drawn.
rand_loop_lem :
    {A : Type 0} (left_first : Bool) (n : ℕ) (str : List A) (seed : ℕ)
    → 0 < length str
    → length str < 9223372036854775808
    → (text : List A) × (seed1 : ℕ) × (rand_loop left_first n str seed ≡ some (text, seed1))
      × (length text ≡ n)
      × All (λ c. (i : ℕ) × (get_elem? str i ≡ some c)) text
unfolding rand_loop
rand_loop_lem left_first zero str seed h k = ([], seed, refl, refl, tt)
rand_loop_lem left_first (suc n) str seed h k =
    let last : minus (length str) 1 ≡ length str - 1 = omega arith in
    let (i, seed1, drawn, low, high) =
      uniform_dist_lem left_first 0 (minus (length str) 1) seed (omega arith)
        (omega (arith, last)) in
    let (c, got) = get_elem?_lem str i (omega (arith, high, last)) in
    let (text, seed2, rest, size, from) = rand_loop_lem left_first n str seed1 h k in
    (c ∷ text, seed2, rw (rand_loop, drawn, got, rest) refl, ap suc size, ((i, got), from))

-- From such a text a text of any length of 32 bits is drawn.
pub rand_str_lem :
    {A : Type 0} (left_first : Bool) (n : ℕ) (str : List A) (seed : ℕ)
    → 0 < length str
    → length str < 9223372036854775808
    → n < 4294967296
    → (text : List A) × (seed1 : ℕ) × (rand_str left_first n str seed ≡ some (text, seed1))
      × (length text ≡ n)
      × All (λ c. (i : ℕ) × (get_elem? str i ≡ some c)) text
unfolding rand_str
rand_str_lem left_first n str seed h k small =
    let ends : ltb n 4294967296 ≡ true = ground arith in
    let (text, seed1, made, size, from) = rand_loop_lem left_first n str seed h k in
    (text, seed1, rw (rand_str, ends) made, size, from)

-- With bounds of 32 bits: `a_string` draws a text whose length is within the
-- bounds and whose characters are digits and letters, whatever the state.
pub a_string_lem :
    (left_first : Bool) (min_len max_len seed : ℕ)
    → min_len ≤ max_len
    → max_len < 4294967296
    → (text : List Char) × (seed1 : ℕ) × (a_string left_first min_len max_len seed
        ≡ some (text, seed1))
      × (min_len ≤ length text)
      × (length text ≤ max_len)
      × All (λ c. (i : ℕ) × (get_elem? alpha i ≡ some c)) text
unfolding a_string
a_string_lem left_first min_len max_len seed h k =
    let (n, seed1, drawn, low, high) =
      uniform_dist_lem left_first min_len max_len seed h (omega arith) in
    let (text, seed2, made, size, from) =
      rand_str_lem left_first n alpha seed1 (omega arith) (omega arith) (omega arith) in
    (
      text,
      seed2,
      rw (a_string, drawn, made) refl,
      omega (arith, size, low),
      omega (arith, size, high),
      from,
    )

-- With bounds of 64 bits that do not span all of them: `non_uniform_distribution` draws a number within
-- the last two bounds, in whatever order the draws are.
pub non_uniform_distribution_lem :
    (draw_first left_first : Bool) (a x y seed : ℕ)
    → a < 18446744073709551615
    → x ≤ y
    → y < 18446744073709551615
    → (n seed1 : ℕ) × (non_uniform_distribution draw_first left_first a x y seed ≡ some (n, seed1))
      × (x ≤ n)
      × (n ≤ y)
unfolding non_uniform_distribution
non_uniform_distribution_lem true left_first a x y seed k h l =
    let (m, seed1, one, _, _) = uniform_dist_lem left_first 0 a seed (omega arith) k in
    let (n, seed2, two, _, _) = uniform_dist_lem left_first x y seed1 h l in
    let (result, low, high) = folded (bit_or m n) x y seed2 h l in
    (bit_or m n % (y - x + 1) + x, seed2, rw (non_uniform_distribution, one, two) result, low, high)
non_uniform_distribution_lem false left_first a x y seed k h l =
    let (m, seed1, one, _, _) = uniform_dist_lem left_first x y seed h l in
    let (n, seed2, two, _, _) = uniform_dist_lem left_first 0 a seed1 (omega arith) k in
    let (result, low, high) = folded (bit_or m n) x y seed2 h l in
    (bit_or m n % (y - x + 1) + x, seed2, rw (non_uniform_distribution, one, two) result, low, high)
