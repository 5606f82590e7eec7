-- ===== src/Tests.antt =====
-- Small instances of the parameters, on which the theorems are applied.
mod RubixStream
mod Frames
mod Queues
mod Legacy
mod Points
mod Config
mod Router
use module_core_loraraw.Prelude.{
  ℕ, zero, suc, ◌+◌, ◌-◌, ◌*◌, ◌/◌, ◌%◌, ◌^◌, ◌≡◌, refl, ap, ◌∙◌, arith, List, [], ◌∷◌, map, length,
  replicate, length-replicate, leb, ltb, ◌==◌,
}
use module_core_loraraw.Prelude.Int.{pos_part}
use module_core_loraraw.Rubix.Floats.{Floats}
use module_core_loraraw.Frame.Cipher.{Crypto, Lawful}

-- Floats without fractions.
abbrev pub whole_floats : Floats
whole_floats = record {
  F64 = ℕ;
  F32 = ℕ;
  widen = λ x. x;
  narrow = λ x. x;
  of_int = pos_part;
  of_uint = λ x. x;
  lt = ltb;
  le = leb;
  sub64 = λ x y. x - y;
  sub32 = λ x y. x - y;
  add64 = λ x y. x + y;
  mul64 = λ x y. x * y;
  div64 = λ x y. x / y;
  mul32 = λ x y. x * y;
  div32 = λ x y. x / y;
  pow10 = λ n. 10 ^ n;
  round = λ x. x;
  to_u64 = λ x. x;
  to_uint = λ n x. x % 2 ^ n;
  to_int = λ n x. x % 2 ^ n;
  bits64 = λ x. x;
  bits32 = λ x. x;
  of_bits32 = λ x. x;
}

abbrev sum : List ℕ → ℕ
sum [] = 0
sum (x ∷ xs) = x + sum xs

-- A cipher that adds one to each byte, with a sum for its CMAC.
abbrev pub shift_cipher : Crypto
shift_cipher = record {
  new_cipher = λ key. length key == 2;
  cbc_encrypt = λ key text. map (λ b. b + 1) text;
  cbc_decrypt = λ key text. map (λ b. b - 1) text;
  cmac_sum = λ key text. replicate 16 (sum key + sum text);
}

length-map : (f : ℕ → ℕ) (xs : List ℕ) → length (map f xs) ≡ length xs
length-map f [] = refl
length-map f (x ∷ xs) = ap suc (length-map f xs)

unshift : (xs : List ℕ) → map (λ b. b - 1) (map (λ b. b + 1) xs) ≡ xs
unshift [] = refl
unshift (x ∷ xs) =
    let same : x + 1 - 1 ≡ x = omega arith in
    ap (λ (t : ℕ). t ∷ map (λ b. b - 1) (map (λ b. b + 1) xs)) same ∙ ap (◌∷◌ x) (unshift xs)

pub shift_cipher-Lawful : Lawful shift_cipher
shift_cipher-Lawful = record {
  length_encrypt = λ key text. length-map (λ b. b + 1) text;
  length_decrypt = λ key text. length-map (λ b. b - 1) text;
  decrypt_encrypt = λ key text valid whole. unshift text;
  length_sum = λ key text. length-replicate {A = ℕ} 16 (sum key + sum text);
}
