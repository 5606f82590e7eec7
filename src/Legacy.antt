-- ===== src/Legacy.antt =====
-- codecs/legacyDecoders: the callbacks that a decoder makes, and what the decoders share.
pub mod HexInt
pub mod Droplet
pub mod MicroEdge
pub mod Safety
pub mod ZipHydroTap
use module_core_loraraw.Prelude.{
  Bool, true, false, ℕ, suc, ◌+◌, ◌*◌, ◌≤◌, refl, List, [], ◌∷◌, ◌++◌, Option, none, some, length,
  get_or, ltb, ltb→le, if◌then◌else◌, Bool-cases, inl, inr,
}
use module_core_loraraw.Prelude.Int.{pos}
use module_core_loraraw.Prelude.Go.{Go, done, ◌>>=◌, Returns, >>=-Returns}
use module_core_loraraw.Prelude.Text.{codes}
use module_core_loraraw.Rubix.Floats.{Floats}

-- updatePointFn and updatePointErrFn, by the name of the point. The errors' texts are left out.
pub data PointCall (F : Type 0) : Type 0 where
  update_point : List ℕ → F → PointCall F
  point_error : List ℕ → PointCall F

-- The callbacks that a decoder made, in order, and whether it returns an error.
abbrev pub Outcome : Type 0 → Type 0
Outcome F = List (PointCall F) × Bool

-- `return updatePointErrFn(name, err, device, nil)` on an error. `rejects` says for which points
-- that callback returns an error of its own.
abbrev pub found_or_report :
    {A F : Type 0} → (List ℕ → Bool) → List ℕ → (A → Go (Outcome F)) → Option A → Go (Outcome F)
found_or_report rejects name rest none = done (point_error name ∷ [], rejects name)
found_or_report rejects name rest (some v) = rest v

abbrev pub or_report :
    {A F : Type 0}
    → (List ℕ → Bool)
    → List ℕ
    → Go (Option A)
    → (A → Go (Outcome F))
    → Go (Outcome F)
or_report rejects name field rest = field >>= found_or_report rejects name rest

-- Goes on behind the calls of an earlier decoder, unless that returned an error.
abbrev pub go_on : {F : Type 0} → Outcome F → Go (Outcome F) → Go (Outcome F)
go_on (calls, true) rest = done (calls, true)
go_on (calls, false) rest = rest >>= λ more. done (calls ++ more.0, more.1)

-- Byte `i`, and the word at `i` with its lower byte first.
abbrev pub at : List ℕ → ℕ → ℕ
at bytes i = get_or bytes i 0

abbrev pub word : List ℕ → ℕ → ℕ
word bytes i = at bytes (suc i) * 256 + at bytes i

-- GetCommonValueNames
abbrev pub common_value_names : List (List ℕ)
common_value_names = codes "rssi" ∷ codes "snr" ∷ []

abbrev pub on_value : {A B : Type 0} → (A → B) → Option A → Option B
on_value f none = none
on_value f (some v) = some (f v)

-- float64(n) of an integer that is not negative.
abbrev pub int_float : (fl : Floats) → ℕ → fl.F64
int_float fl n = fl.of_int (pos n)

found_or_report-Returns :
    {A F : Type 0} (rejects : List ℕ → Bool) (name : List ℕ) (rest : A → Go (Outcome F))
    (found : Option A)
    → ((v : A) → Returns (rest v))
    → Returns (found_or_report rejects name rest found)
found_or_report-Returns rejects name rest none h = (_, refl)
found_or_report-Returns rejects name rest (some v) h = h v

pub or_report-Returns :
    {A F : Type 0} (rejects : List ℕ → Bool) (name : List ℕ) (field : Go (Option A))
    (rest : A → Go (Outcome F))
    → Returns field
    → ((v : A) → Returns (rest v))
    → Returns (or_report rejects name field rest)
or_report-Returns rejects name field rest r h =
    >>=-Returns field (found_or_report rejects name rest) r
      (λ found. found_or_report-Returns rejects name rest found h)

-- A field behind the test of the text's length.
pub field-Returns :
    {A : Type 0} (text : List ℕ) (n : ℕ) (field : Go (Option A))
    → (n ≤ length text → Returns field)
    → Returns (if ltb (length text) n then done none else field)
field-Returns text n field h = elim (Bool-cases (ltb (length text) n)) [
  | inl short ↦ (none, rw short refl)
  | inr enough ↦ let (v, e) = h (ltb→le _ _ enough) in (v, rw enough e)
]

pub go_on-Returns :
    {F : Type 0} (earlier : Outcome F) (rest : Go (Outcome F))
    → Returns rest
    → Returns (go_on earlier rest)
go_on-Returns (calls, true) rest r = (_, refl)
go_on-Returns (calls, false) rest r = >>=-Returns rest _ r (λ more. (_, refl))

-- utils.BoolToFloat
abbrev pub bool_to_float : (fl : Floats) → Bool → fl.F64
bool_to_float fl b = if b then int_float fl 1 else int_float fl 0
