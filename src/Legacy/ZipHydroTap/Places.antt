-- ===== src/Legacy/ZipHydroTap/Places.antt =====
-- What a read gives within the payload, and the places of the fields.
use module_core_loraraw.Prelude.{
  ℕ, zero, suc, ◌+◌, ◌*◌, ◌%◌, ◌≤◌, ◌≡◌, refl, ap, ◌∙◌, arith, List, [], ◌∷◌, length, take, drop,
  leb,
}
use module_core_loraraw.Prelude.Go.{done}
use module_core_loraraw.Frame.Layout.{slice}
use module_core_loraraw.Frame.Safety.{slice_lem}
use module_core_loraraw.Dispatch.Policy.{byte_at_lem}
use module_core_loraraw.Rubix.Floats.{Floats}
use module_core_loraraw.Legacy.{PointCall, update_point, at, word, int_float, bool_to_float}
use module_core_loraraw.Legacy.ZipHydroTap.Cursor.{
  little_endian, read_u8, peek_at, read_bytes, read_u16, read_u32, bit, tenths, single, kwh_float,
}

pub read_u8_lem :
    (field : List ℕ) (i : ℕ) → i + 1 ≤ length field → read_u8 field i ≡ done (at field i, i + 1)
unfolding read_u8
read_u8_lem field i h = let e = byte_at_lem field i (omega arith) in rw e refl

pub peek_at_lem :
    (k : ℕ) (field : List ℕ) (i : ℕ)
    → k + 1 ≤ length field
    → peek_at k field i ≡ done (at field k, i)
unfolding peek_at
peek_at_lem k field i h = let e = byte_at_lem field k (omega arith) in rw e refl

slice_at :
    (field : List ℕ) (i n : ℕ)
    → i + n ≤ length field
    → slice field i (i + n) ≡ done (take n (drop i field))
slice_at field i n h =
    slice_lem field i (i + n) (omega arith) h
    ∙ ap (λ (k : ℕ). done (take k (drop i field))) (omega arith)

pub read_bytes_lem :
    (n : ℕ) (field : List ℕ) (i : ℕ)
    → i + n ≤ length field
    → read_bytes n field i ≡ done (take n (drop i field), i + n)
unfolding read_bytes
read_bytes_lem n field i h = let cut = slice_at field i n h in rw cut refl

take_two :
    (field : List ℕ) (i : ℕ)
    → i + 2 ≤ length field
    → little_endian (take 2 (drop i field)) ≡ word field i
take_two [] i h = absurd (omega arith)
take_two (b ∷ []) zero h = absurd (omega arith)
take_two (b ∷ c ∷ bs) zero h = omega arith
take_two (b ∷ bs) (suc i) h = take_two bs i (omega arith)

pub read_u16_lem :
    (field : List ℕ) (i : ℕ) → i + 2 ≤ length field → read_u16 field i ≡ done (word field i, i + 2)
unfolding read_u16
read_u16_lem field i h =
    let cut = slice_at field i 2 h in let e = take_two field i h in rw (cut, e) refl

take_four :
    (field : List ℕ) (i : ℕ)
    → i + 4 ≤ length field
    → little_endian (take 4 (drop i field)) ≡ word field (suc (suc i)) * 65536 + word field i
take_four [] i h = absurd (omega arith)
take_four (b ∷ []) zero h = absurd (omega arith)
take_four (b ∷ c ∷ []) zero h = absurd (omega arith)
take_four (b ∷ c ∷ d ∷ []) zero h = absurd (omega arith)
take_four (b ∷ c ∷ d ∷ e ∷ bs) zero h = omega arith
take_four (b ∷ bs) (suc i) h = take_four bs i (omega arith)

pub read_u32_lem :
    (field : List ℕ) (i : ℕ)
    → i + 4 ≤ length field
    → read_u32 field i ≡ done (word field (suc (suc i)) * 65536 + word field i, i + 4)
unfolding read_u32
read_u32_lem field i h =
    let cut = slice_at field i 4 h in let e = take_four field i h in rw (cut, e) refl

-- How a field is written.
pub data Kind : Type 0 where
  one_byte one_word one_long low_six tenths_of_word tenths_of_long : Kind
  single_byte clock latch : Kind
  flag : ℕ → Kind

pub data Place : Type 0 where
  place : List ℕ → Kind → ℕ → Place

-- A number of four bytes, the lowest first.
abbrev pub long : List ℕ → ℕ → ℕ
long field i = word field (suc (suc i)) * 65536 + word field i

module _ (fl : Floats) where
  abbrev pub kind_value : Kind → List ℕ → ℕ → fl.F64
  kind_value one_byte field i = int_float fl (at field i)
  kind_value one_word field i = int_float fl (word field i)
  kind_value one_long field i = int_float fl (long field i)
  kind_value low_six field i = int_float fl (at field i % 64)
  kind_value tenths_of_word field i = tenths fl (word field i)
  kind_value tenths_of_long field i = kwh_float fl (long field i)
  kind_value single_byte field i = single fl (at field i)
  kind_value clock field i = int_float fl (word field i % 10000)
  kind_value latch field i = bool_to_float fl (leb 10000 (word field i))
  kind_value (flag k) field i = bool_to_float fl (bit k (at field i))

  abbrev pub placed : List ℕ → Place → PointCall fl.F64
  placed field (place name kind i) = update_point name (kind_value kind field i)

  -- A field that the payload does not have.
  abbrev pub zero_of : Place → PointCall fl.F64
  zero_of (place name kind i) = update_point name (int_float fl 0)
