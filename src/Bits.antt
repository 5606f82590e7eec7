-- ===== src/Bits.antt =====
-- Numbers as bits, most significant first, and bytes as bits: the vocabulary in which the bit
-- streams of codecs/rubixDataEncoding are described. `bor` is Go's `|` on words of `w` bits.
pub mod Split
pub mod Pow
pub mod Or
pub mod Bytes
use module_core_loraraw.Prelude.{
  ℕ, zero, suc, ◌+◌, ◌*◌, ◌/◌, ◌%◌, ◌^◌, ◌<◌, List, [], ◌∷◌, ◌++◌, max, replicate,
}

-- The low `n` bits of `x`.
unfoldable pub to_bits : ℕ → ℕ → List ℕ
to_bits zero x = []
to_bits (suc n) x = to_bits n (x / 2) ++ x % 2 ∷ []

-- The number that bits stand for, after `acc`.
unfoldable pub of_bits : ℕ → List ℕ → ℕ
of_bits acc [] = acc
of_bits acc (b ∷ bs) = of_bits (acc * 2 + b) bs

-- The bits of a byte slice.
unfoldable pub bits : List ℕ → List ℕ
bits [] = []
bits (b ∷ bs) = to_bits 8 b ++ bits bs

-- The big-endian number of a byte slice, after `acc`.
unfoldable pub num : ℕ → List ℕ → ℕ
num acc [] = acc
num acc (b ∷ bs) = num (acc * 256 + b) bs

abbrev pub zeros : ℕ → List ℕ
zeros n = replicate n 0

abbrev pub IsByte : ℕ → Type 0
IsByte b = b < 256

-- `a | b` on words of `w` bits.
unfoldable pub bor : ℕ → ℕ → ℕ → ℕ
bor zero a b = 0
bor (suc w) a b = bor w (a / 2) (b / 2) * 2 + max (a % 2) (b % 2)

abbrev pub u8 : ℕ → ℕ
u8 n = n % 2 ^ 8

abbrev pub u64 : ℕ → ℕ
u64 n = n % 2 ^ 64
