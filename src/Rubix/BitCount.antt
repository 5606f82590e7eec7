-- ===== src/Rubix/BitCount.antt =====
-- getBitCount of codecs/rubixDataEncoding/decoder.go: how wide a fixed-point field is. The sizes of
-- the table are far below 2 ^ 53, up to which the source's float comparisons are exact, and its decimals
-- below 20, from which the power of ten is no uint64.
use module_core_loraraw.Prelude.{ℕ, zero, suc, ◌+◌, ◌-◌, ◌*◌, ◌%◌, ◌^◌, true, false, ltb}
use module_core_loraraw.Prelude.Int.{ℤ, pos_part, neg_part, ◌-ℤ◌}
use module_core_loraraw.Bits.{u64}

-- uint64(n)
abbrev pub uint64_of : ℤ → ℕ
uint64_of n = u64 (u64 (pos_part n) + 2 ^ 64 - neg_part n % 2 ^ 64)

unfoldable pub required_size : ℤ → ℤ → ℕ → ℕ
required_size low high decimal = u64 (uint64_of (high -ℤ low) * u64 (10 ^ decimal))

unfoldable pub grow : ℕ → ℕ → ℕ → ℕ
grow zero size n = n
grow (suc fuel) size n = elim (ltb (2 ^ n) size) [ true ↦ grow fuel size (n + 1) | false ↦ n ]

-- 64 rounds are enough, since the size is a uint64.
unfoldable pub get_bit_count : ℤ → ℤ → ℕ → ℕ
unfolding grow required_size
get_bit_count low high decimal = grow 64 (required_size low high decimal) 1
