-- ===== src/Map/Hash.antt =====
-- `MapKeyHasher` of api/map.hpp on a `Str` key: the sum of the bytes' remainders by 7.
use julelang.Prelude.{
  ℕ, ◌+◌, ◌*◌, ◌%◌, ◌^◌, ◌≤◌, ◌<◌, ◌≡◌, ap, ◌∙◌, sym, arith, [], ◌∷◌, ◌++◌, length,
}
use julelang.Str.{Str}

-- The loop of `operator()(const Str&)`, on the bytes that are left; `size_t` has 64 bits.
unfoldable pub hash_loop : ℕ → Str → ℕ
hash_loop hash [] = hash
hash_loop hash (b ∷ key) = hash_loop ((hash + b % 7) % 2 ^ 64) key

unfoldable pub hash_str : Str → ℕ
unfolding hash_loop
hash_str key = hash_loop 0 key

-- The sum without wrap-around.
weights : Str → ℕ
weights [] = 0
weights (b ∷ key) = b % 7 + weights key

weights-le : (key : Str) → weights key ≤ 6 * length key
unfolding weights
weights-le [] = omega arith
weights-le (b ∷ key) = omega (arith, weights-le key)

hash_loop-weights :
    (hash : ℕ) (key : Str) → hash < 2 ^ 64 → hash_loop hash key ≡ (hash + weights key) % 2 ^ 64
unfolding hash_loop weights
hash_loop-weights hash [] h = omega arith
hash_loop-weights hash (b ∷ key) h =
    hash_loop-weights ((hash + b % 7) % 2 ^ 64) key (omega arith) ∙ omega arith

weights-append : (s t : Str) → weights (s ++ t) ≡ weights s + weights t
unfolding weights
weights-append [] t = omega arith
weights-append (b ∷ s) t = omega (arith, weights-append s t)

-- A key of n bytes, fewer than 2^60, hashes to at most 6 * n.
pub hash-bound : (key : Str) → length key < 2 ^ 60 → hash_str key ≤ 6 * length key
unfolding hash_str
hash-bound key short = omega (arith, hash_loop-weights 0 key (omega arith), weights-le key)

-- The order of the parts of a key does not matter to its hash, nor that of two bytes anywhere in it.
pub hash-rotate : (s t : Str) → hash_str (s ++ t) ≡ hash_str (t ++ s)
unfolding hash_str
hash-rotate s t =
    hash_loop-weights 0 (s ++ t) (omega arith)
    ∙ ap (λ (n : ℕ). (0 + n) % 2 ^ 64) (weights-append s t ∙ omega arith ∙ sym (weights-append t s))
    ∙ sym (hash_loop-weights 0 (t ++ s) (omega arith))
