-- ===== src/Rubix/Settings.antt =====
-- The settings byte: what setPositionalData changes, and the payload that has none.
use mathlib.Core.Logic.{◌↔◌}
use module_core_loraraw.Prelude.{
  ℕ, ◌+◌, ◌*◌, ◌/◌, ◌%◌, ◌≡◌, refl, sym, ap, ◌∙◌, arith, Bool, true, false, List, [], ◌∷◌, ◌==◌,
  if◌then◌else◌, All, Option,
}
use module_core_loraraw.Prelude.Finite.{all_below, all_below_sound}
use module_core_loraraw.Prelude.Go.{done, panic}
use module_core_loraraw.Bits.{bor, IsByte}
use module_core_loraraw.Rubix.Serial.{
  SerialData, bit_set, set_positional_data, has_positional_data, new_serial_data_with_buffer,
}
use module_core_loraraw.Rubix.Floats.{Floats}
use module_core_loraraw.Rubix.Points.{decode_rubix}
use module_core_loraraw.Rubix.Points.Total.{decode_rubix_total}

abbrev pub with_low : ℕ → Bool → ℕ
with_low byte bit = byte / 2 * 2 + (if bit then 1 else 0)

bytes_set : all_below 256 (λ b. bit_set b true 0 == with_low b true) ≡ true
unfolding all_below bit_set bor
bytes_set = refl

bytes_cleared : all_below 256 (λ b. bit_set b false 0 == with_low b false) ≡ true
unfolding all_below bit_set bor
bytes_cleared = refl

bit_set_low : (byte : ℕ) (bit : Bool) → IsByte byte → bit_set byte bit 0 ≡ with_low byte bit
bit_set_low byte true h = let checked = all_below_sound 256 _ byte bytes_set h in ground arith
bit_set_low byte false h = let checked = all_below_sound 256 _ byte bytes_cleared h in ground arith

low_bit : (byte : ℕ) (bit : Bool) → (with_low byte bit % 2 == 1) ≡ bit
low_bit byte true = let odd : (byte / 2 * 2 + 1) % 2 ≡ 1 = omega arith in rw odd refl
low_bit byte false = let even : (byte / 2 * 2 + 0) % 2 ≡ 0 = omega arith in rw even refl

-- setPositionalData sets the low bit of the settings byte as it is told and nothing else, and
-- hasPositionalData reads that back.
pub has_positional_data-set_positional_data :
    (sd : SerialData) (set : Bool) (b : ℕ) (bs : List ℕ)
    → sd.buffer ≡ b ∷ bs
    → IsByte b
    → (after : SerialData) × (set_positional_data sd set ≡ done after)
      × (after ≡ record sd { buffer = (b / 2 * 2 + (if set then 1 else 0)) ∷ bs })
      × (has_positional_data after ≡ done set)
unfolding set_positional_data has_positional_data
has_positional_data-set_positional_data sd set b bs e h = (
  record sd { buffer = with_low b set ∷ bs },
  rw e (ap (λ (c : ℕ). done (record sd { buffer = c ∷ bs })) (bit_set_low b set h)),
  refl,
  ap done (low_bit b set),
)

pub panic≢done : {A : Type 0} (a : A) → done a ≡ panic → ⊥
panic≢done a e = cc

-- DecodeRubix panics on the empty payload, whose settings byte it reads, and on no other.
pub decode_rubix_panics :
    (fl : Floats) (msg : Option ℕ) (payload : List ℕ)
    → All IsByte payload
    → (decode_rubix fl msg payload ≡ panic) ↔ (payload ≡ [])
unfolding decode_rubix new_serial_data_with_buffer has_positional_data
decode_rubix_panics fl msg [] h = (λ e. refl, λ e. refl)
decode_rubix_panics fl msg (b ∷ bs) h = (
  (λ e.
      let (calls, returns) = decode_rubix_total fl msg (b ∷ bs) h (omega arith) in
      absurd (panic≢done _ (sym returns ∙ e))),
  λ e. cc,
)
