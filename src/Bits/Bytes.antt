-- ===== src/Bits/Bytes.antt =====
-- The bits of byte slices, and the number that a slice stands for.
use module_core_loraraw.Prelude.{
  ℕ, ◌+◌, ◌*◌, ◌/◌, ◌%◌, ◌^◌, ◌≡◌, refl, sym, ap, ◌∙◌, arith, List, [], ◌∷◌, ◌++◌, append_assoc,
  append-nil, length, length-append, All,
}
use module_core_loraraw.Bits.{to_bits, bits, num, IsByte}
use module_core_loraraw.Bits.Split.{length-to_bits, to_bits-split, to_bits_mod}

pub bits-append : (xs ys : List ℕ) → bits (xs ++ ys) ≡ bits xs ++ bits ys
unfolding bits
bits-append [] ys = refl
bits-append (x ∷ xs) ys =
    rw (bits-append xs ys) (sym (append_assoc (to_bits 8 x) (bits xs) (bits ys)))

pub length-bits : (xs : List ℕ) → length (bits xs) ≡ 8 * length xs
unfolding bits
length-bits [] = refl
length-bits (x ∷ xs) =
    omega (arith, length-append (to_bits 8 x) (bits xs), length-to_bits 8 x, length-bits xs)

pub push_byte :
    (m acc x : ℕ) → IsByte x → to_bits (m + 8) (acc * 256 + x) ≡ to_bits m acc ++ to_bits 8 x
push_byte m acc x h =
    let upper : (acc * 256 + x) / 2 ^ 8 ≡ acc = omega arith in
    let lower : (acc * 256 + x) % 2 ^ 8 ≡ x = omega arith in
    to_bits-split m 8 (m + 8) (acc * 256 + x) refl
    ∙ ap (λ (t : ℕ). to_bits m t ++ to_bits 8 (acc * 256 + x)) upper
    ∙ ap (◌++◌ (to_bits m acc))
        (sym (to_bits_mod 8 8 (acc * 256 + x) (omega arith)) ∙ ap (to_bits 8) lower)

pub to_bits-num :
    (m k acc : ℕ) (xs : List ℕ)
    → All IsByte xs
    → k ≡ m + 8 * length xs
    → to_bits k (num acc xs) ≡ to_bits m acc ++ bits xs
unfolding num bits
to_bits-num m k acc [] h e = let same : k ≡ m = omega arith in rw (same, append-nil)
to_bits-num m k acc (x ∷ xs) h e =
    to_bits-num (m + 8) k (acc * 256 + x) xs h.1 (omega arith)
    ∙ ap (λ (l : List ℕ). l ++ bits xs) (push_byte m acc x h.0)
    ∙ append_assoc (to_bits m acc) (to_bits 8 x) (bits xs)
