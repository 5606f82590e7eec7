-- ===== src/Legacy/ZipHydroTap/Cursor.antt =====
-- The reads of codecs/legacyDecoders/ziphydrotap.go: `data[index]` or a slice of it, then `index += n`.
use module_core_loraraw.Prelude.{ℕ, ◌+◌, ◌*◌, Bool, List, [], ◌∷◌, length, leb, ◌/◌, ◌%◌, ◌^◌, ◌==◌}
use module_core_loraraw.Prelude.Go
use module_core_loraraw.Prelude.Go.{Go, done}
use module_core_loraraw.Frame.Layout.{byte_at, slice}
use module_core_loraraw.Rubix.Floats.{Floats}
use module_core_loraraw.Legacy.{at, int_float}

-- A computation that reads `data` from an index and moves it.
abbrev pub Cursor : Type 0 → Type 0
Cursor A = List ℕ → ℕ → Go (A × ℕ)

infixl 5 ◌>>=◌
abbrev pub ◌>>=◌ : {A B : Type 0} → Cursor A → (A → Cursor B) → Cursor B
(r >>= k) field i = Go.◌>>=◌ (r field i) (λ read. k read.0 field read.1)

abbrev pub pure : {A : Type 0} → A → Cursor A
pure a field i = done (a, i)

abbrev pub little_endian : List ℕ → ℕ
little_endian [] = 0
little_endian (b ∷ bs) = little_endian bs * 256 + b

unfoldable pub read_u8 : Cursor ℕ
read_u8 field i = Go.◌>>=◌ (byte_at field i) (λ b. done (b, i + 1))

-- A byte without moving, by its own index.
unfoldable pub peek_at : ℕ → Cursor ℕ
peek_at at field i = Go.◌>>=◌ (byte_at field at) (λ b. done (b, i))

-- `data[index : index+n]`
unfoldable pub read_bytes : ℕ → Cursor (List ℕ)
read_bytes n field i = Go.◌>>=◌ (slice field i (i + n)) (λ part. done (part, i + n))

unfoldable pub read_u16 : Cursor ℕ
read_u16 field i = Go.◌>>=◌ (slice field i (i + 2)) (λ part. done (little_endian part, i + 2))

unfoldable pub read_u32 : Cursor ℕ
read_u32 field i = Go.◌>>=◌ (slice field i (i + 4)) (λ part. done (little_endian part, i + 4))

-- `index+n > len(data)`, denied.
abbrev pub room : ℕ → Cursor Bool
room n field i = done (leb (i + n) (length field), i)

-- The index itself.
abbrev pub mark : Cursor ℕ
mark field i = done (i, i)

-- `(b>>k)&1 == 1`
abbrev pub bit : ℕ → ℕ → Bool
bit k b = b / 2 ^ k % 2 == 1

-- float64 of a float32 that is a number over 10.
abbrev pub tenths : (fl : Floats) → ℕ → fl.F64
tenths fl n = fl.widen (fl.div32 (fl.narrow (int_float fl n)) (fl.narrow (int_float fl 10)))

-- float64 of a float32 that is a number.
abbrev pub single : (fl : Floats) → ℕ → fl.F64
single fl n = fl.widen (fl.narrow (int_float fl n))

-- float64 of a float32 that is a number times 0.1, a constant of that type.
abbrev pub kwh_float : (fl : Floats) → ℕ → fl.F64
kwh_float fl n = fl.widen (
    fl.mul32 (fl.narrow (int_float fl n))
      (fl.div32 (fl.narrow (int_float fl 1)) (fl.narrow (int_float fl 10))))
