-- ===== src/Rubix/Widths.antt =====
-- The width of every field: what serialmap.go and getBitCount give for each key.
use mathlib.Core.Logic.{◌↔◌}
use native.Mathlib.Nat.{zero-add, pow-le-pow_right}
use module_core_loraraw.Prelude.{
  ℕ, zero, suc, ◌+◌, ◌*◌, ◌^◌, ◌≤◌, ◌<◌, ◌≡◌, arith, List, [], ◌∷◌, All, ltb, ltb→lt, ltb→le,
  Bool-cases, inl, inr, ◌==◌,
}
use module_core_loraraw.Prelude.Int.{ℤ}
use module_core_loraraw.Rubix.MetaData.{
  MetaData, DataType, data_point, get_meta_data, serial_map, lookup, zero_meta_data,
}
use module_core_loraraw.Rubix.BitCount.{get_bit_count, required_size, grow}

abbrev pub width_by_type : DataType → MetaData → ℕ
width_by_type data_point m = m.byte_count * 8
width_by_type _ m = get_bit_count m.low_value m.high_value m.decimal_point

abbrev pub width : MetaData → ℕ
width m = width_by_type m.data_type m

abbrev pub IsWidth : ℕ → Type 0
IsWidth n = (0 < n) × (n ≤ 64)

lookup-All :
    (P : MetaData → Type 0) (key : ℕ) (table : List (ℕ × MetaData))
    → P zero_meta_data
    → All (λ row. P row.1) table
    → P (lookup key table)
unfolding lookup
lookup-All P key [] hz h = hz
lookup-All P key ((j, m) ∷ rest) hz h = elim (Bool-cases (j == key)) [
  | inl same ↦ rw same h.0
  | inr other ↦ rw other (lookup-All P key rest hz h.1)
]

pub width-IsWidth : (key : ℕ) → IsWidth (width (get_meta_data key))
unfolding get_meta_data get_bit_count
width-IsWidth key = lookup-All (λ m. IsWidth (width m)) key serial_map (omega arith) (omega arith)

-- The loop of getBitCount stops at the least width, from `n` on, whose power reaches the size.
grow_least :
    (fuel size n : ℕ)
    → size ≤ 2 ^ (fuel + n)
    → (size ≤ 2 ^ grow fuel size n)
      × (n ≤ grow fuel size n)
      × ((k : ℕ) → n ≤ k → k < grow fuel size n → 2 ^ k < size)
unfolding grow
grow_least zero size n h = (rw zero-add at h, omega arith, λ k a b. absurd (omega arith))
grow_least (suc fuel) size n h = elim (Bool-cases (ltb (2 ^ n) size)) [
  | inl small ↦
      let next : suc fuel + n ≡ fuel + (n + 1) = omega arith in
      let (enough, after, least) = grow_least fuel size (n + 1) (rw next at h) in
      rw (small, grow)
        (
          enough,
          omega arith,
          λ k a b. elim (Bool-cases (k == n)) [
            | inl same ↦ let e : k ≡ n = ground arith in rw e (ltb→lt _ _ small)
            | inr other ↦ least k (ground arith) b
          ],
        )
  | inr large ↦ rw (large, grow) (ltb→le _ _ large, omega arith, λ k a b. absurd (omega arith))
]

get_bit_count_least :
    (low high : ℤ) (decimal : ℕ)
    → let size = required_size low high decimal in
      let n = get_bit_count low high decimal in
      (size ≤ 2 ^ n) × (1 ≤ n) × ((k : ℕ) → 1 ≤ k → k < n → 2 ^ k < size)
unfolding get_bit_count required_size
get_bit_count_least low high decimal =
    grow_least 64 (required_size low high decimal) 1 (omega arith)

-- getBitCount returns the least positive width whose power of two reaches the size of the range:
-- a positive width is enough exactly where it is at least that. This is for the sizes that a float64 holds exactly, up
-- to 2 ^ 53, and for at most 19 decimals, whose power of ten is a uint64.
pub get_bit_count-least :
    (low high : ℤ) (decimal k : ℕ)
    → decimal ≤ 19
    → required_size low high decimal ≤ 2 ^ 53
    → 1 ≤ k
    → (required_size low high decimal ≤ 2 ^ k) ↔ (get_bit_count low high decimal ≤ k)
get_bit_count-least low high decimal k hd hs hk =
    let n : ℕ = get_bit_count low high decimal in
    let (enough, positive, least) = get_bit_count_least low high decimal in
    (
      (λ h. elim (Bool-cases (ltb k n)) [
        | inl below ↦ absurd (omega (arith, least k hk (ltb→lt _ _ below)))
        | inr above ↦ ltb→le _ _ above
      ]),
      λ h. omega (arith, enough, pow-le-pow_right {n = 2} (omega arith) h),
    )
