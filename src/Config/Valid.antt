-- ===== src/Config/Valid.antt =====
-- What a configuration that is set promises to the queue and to the cipher.
use module_core_loraraw.Prelude.{
  ℕ, ◌≡◌, refl, ap, sym, Bool, true, false, List, [], ◌∷◌, Option, none, some, length, ◌==◌, arith,
  if◌then◌else◌, Bool-cases, Option-cases, inl, inr,
}
use module_core_loraraw.Prelude.Int.{ℤ, pos}
use module_core_loraraw.Frame.Hex.{decode_string, hex_value}
use module_core_loraraw.Dispatch.{Device, get_encryption_key}
use module_core_loraraw.Config.{
  Config, default_config, default_device_key, not_positive, with_level, with_bounds, with_key,
  validate_and_set_config,
}

-- A key of 16 bytes, at least one attempt and a positive time to wait.
pub record IsValid (config : Config) : Type 0 where
  pub key : List ℕ
  pub decodes : decode_string config.default_key ≡ (key, true)
  pub sixteen : length key ≡ 16
  pub retries : not_positive config.write_queue_max_retries ≡ false
  pub timeout : not_positive config.write_response_timeout ≡ false

abbrev default_key_bytes : List ℕ
default_key_bytes = 3 ∷ 1 ∷ 2 ∷ 22 ∷ 4 ∷ 5 ∷ 15 ∷ 7 ∷ 230 ∷ 9 ∷ 90 ∷ 11 ∷ 12 ∷ 18 ∷ 99 ∷ 15 ∷ []

default_decodes : decode_string default_device_key ≡ (default_key_bytes, true)
unfolding decode_string hex_value
default_decodes = refl

at_least :
    (v d : ℤ) → not_positive d ≡ false → not_positive (if not_positive v then d else v) ≡ false
at_least v d h = elim (Bool-cases (not_positive v)) [
  | inl small ↦ rw small h
  | inr positive ↦ rw positive positive
]

with_bounds-retries :
    (config : Config) → not_positive (with_bounds config).write_queue_max_retries ≡ false
with_bounds-retries config = at_least config.write_queue_max_retries (pos 1) refl

with_bounds-timeout :
    (config : Config) → not_positive (with_bounds config).write_response_timeout ≡ false
with_bounds-timeout config = at_least config.write_response_timeout (pos 5000000000) refl

some_injective : {A : Type 0} {a b : A} → some a ≡ some b → a ≡ b
some_injective e = cc e

with_key-IsValid :
    (config result : Config)
    → with_key config ≡ some result
    → not_positive config.write_queue_max_retries ≡ false
    → not_positive config.write_response_timeout ≡ false
    → IsValid result
unfolding with_key
with_key-IsValid config result e retries timeout =
    let read = decode_string config.default_key in
    elim (Bool-cases read.1) [
      | inr broken ↦ let bad : none ≡ some result = rw (broken, with_key) at e in cc
      | inl whole ↦ elim (Bool-cases (length read.0 == 0)) [
        | inl absent ↦
            let same : some (record config { default_key = default_device_key }) ≡ some result =
              rw (whole, absent, with_key) at e in
            rw (sym (some_injective same)) (record {
              key = default_key_bytes;
              decodes = default_decodes;
              sixteen = refl;
              retries = retries;
              timeout = timeout;
            })
        | inr present ↦ elim (Bool-cases (length read.0 == 16)) [
          | inr other ↦
              let bad : none ≡ some result = rw (whole, present, other, with_key) at e in cc
          | inl fits ↦
              let same : some config ≡ some result = rw (whole, present, fits, with_key) at e in
              rw (sym (some_injective same)) (record {
                key = read.0;
                decodes = ap (λ (b : Bool). (read.0, b)) whole;
                sixteen = ground arith;
                retries = retries;
                timeout = timeout;
              })
        ]
      ]
    ]

-- Whatever the text says, a configuration that is set has a default key of exactly 16 bytes in hex, at least one
-- attempt for a write and a positive time to wait for a response.
pub validate_and_set_config-IsValid :
    (unmarshal : List ℕ → Config → Config) (parse_level : List ℕ → Option (List ℕ))
    (marshal : Config → Option (List ℕ)) (text valid : List ℕ) (config : Config)
    → validate_and_set_config unmarshal parse_level marshal text ≡ some (config, valid)
    → IsValid config
unfolding validate_and_set_config
validate_and_set_config-IsValid unmarshal parse_level marshal text valid config e =
    let read = with_bounds (with_level parse_level (unmarshal text default_config)) in
    elim (Option-cases (with_key read)) [
      | inl refused ↦
          let bad : ◌≡◌ {A = Option (Config × List ℕ)} none (some (config, valid)) =
            rw (refused, validate_and_set_config) at e in
          cc
      | inr (found, accepted) ↦ elim (Option-cases (marshal found)) [
        | inl unwritten ↦
            let bad : ◌≡◌ {A = Option (Config × List ℕ)} none (some (config, valid)) =
              rw (accepted, unwritten, validate_and_set_config) at e in
            cc
        | inr (bytes, written) ↦
            let same : some (found, bytes) ≡ some (config, valid) =
              rw (accepted, written, validate_and_set_config) at e in
            rw (sym (ap (λ (p : Config × List ℕ). p.0) (some_injective same))) (
              with_key-IsValid read found accepted
                (with_bounds-retries (with_level parse_level (unmarshal text default_config)))
                (with_bounds-timeout (with_level parse_level (unmarshal text default_config))))
      ]
    ]

-- The key of a device without one of its own is then that of the configuration.
get_encryption_key-IsValid :
    (config : Config) (device : Device) (v : IsValid config)
    → device.manufacture ≡ []
    → get_encryption_key config.default_key device ≡ some v.key
unfolding get_encryption_key
get_encryption_key-IsValid config device v h = simp (h, v.decodes)
