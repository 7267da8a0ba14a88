-- ===== src/Shards/Hash.antt =====
-- `fnv1a32` of collector-shard-assignment.service.ts. The source's numbers are 32-bit patterns that JavaScript
-- reads as signed between the operations; they agree modulo 2 ^ 32, and `>>> 0` takes that remainder.
use Prim.Native.Nat.{bit_xor}
use trading_worker.Base.{ℕ, ◌+◌, ◌*◌, ◌%◌, ◌^◌, ◌<◌, ◌≡◌, arith, [], ◌∷◌}
use trading_worker.Base.Text.{Text}

-- `hash << k`
abbrev shl : ℕ → ℕ → ℕ
shl hash k = hash * 2 ^ k % 2 ^ 32

-- The step of the loop after the exclusive or.
unfoldable pub fnv_mix : ℕ → ℕ
fnv_mix hash = (hash + (shl hash 1 + shl hash 4 + shl hash 7 + shl hash 8 + shl hash 24)) % 2 ^ 32

unfoldable pub fnv_loop : ℕ → Text → ℕ
unfolding fnv_mix
fnv_loop hash [] = hash
fnv_loop hash (c ∷ input) = fnv_loop (fnv_mix (bit_xor hash c)) input

unfoldable pub fnv1a32 : Text → ℕ
unfolding fnv_loop
fnv1a32 input = fnv_loop 0x811c9dc5 input % 2 ^ 32

abbrev pub fnv_prime : ℕ
fnv_prime = 16777619

abbrev pub fnv_offset_basis : ℕ
fnv_offset_basis = 2166136261

-- FNV-1a as it is published: one exclusive or and one multiplication for each byte.
abbrev pub fnv1a_from : ℕ → Text → ℕ
fnv1a_from hash [] = hash
fnv1a_from hash (c ∷ input) = fnv1a_from (bit_xor hash c * fnv_prime % 2 ^ 32) input

fnv_mix_lem : (hash : ℕ) → fnv_mix hash ≡ hash * fnv_prime % 2 ^ 32
unfolding fnv_mix
fnv_mix_lem hash = omega arith

fnv_loop_lem :
    (hash : ℕ) (input : Text) → hash < 2 ^ 32 → fnv_loop hash input % 2 ^ 32 ≡ fnv1a_from hash input
unfolding fnv_loop
fnv_loop_lem hash [] h = omega arith
fnv_loop_lem hash (c ∷ input) h =
    rw (fnv_mix_lem (bit_xor hash c))
      (fnv_loop_lem (bit_xor hash c * fnv_prime % 2 ^ 32) input (omega arith))

-- The shifts and additions of the source compute FNV-1a of 32 bits, for every text.
pub fnv1a32-eq-fnv1a : (input : Text) → fnv1a32 input ≡ fnv1a_from fnv_offset_basis input
unfolding fnv1a32
fnv1a32-eq-fnv1a input = fnv_loop_lem fnv_offset_basis input (omega arith)
