-- ===== src/Frame/Cipher.antt =====
-- aesutils/aesutils.go, over AES-CBC and AES-CMAC as parameters.
use module_core_loraraw.Prelude.{
  ℕ, ◌-◌, ◌%◌, ◌≡◌, Bool, true, not, List, [], ◌∷◌, ◌++◌, Option, none, some, length, take, drop,
  replicate, ltb, ◌==◌, if◌then◌else◌,
}
use module_core_loraraw.Prelude.Go.{Go, done, panic, ◌>>=◌}
use module_core_loraraw.Prelude.Text.{text_eq}
use module_core_loraraw.Bits.{u8}
use module_core_loraraw.Frame.Layout.{slice}
use module_core_loraraw.Frame.Hex.{decode_string}

abbrev pub block_size : ℕ
block_size = 16

abbrev pub cmac_len : ℕ
cmac_len = 4

-- crypto/aes, crypto/cipher with the zero vector, and cmac: each takes the key first.
pub record Crypto : Type 0 where
  -- aes.NewCipher accepts the key
  pub new_cipher : List ℕ → Bool
  pub cbc_encrypt : List ℕ → List ℕ → List ℕ
  pub cbc_decrypt : List ℕ → List ℕ → List ℕ
  pub cmac_sum : List ℕ → List ℕ → List ℕ

-- What the module relies on.
pub record Lawful (c : Crypto) : Type 0 where
  pub length_encrypt : (key text : List ℕ) → length (c.cbc_encrypt key text) ≡ length text
  pub length_decrypt : (key text : List ℕ) → length (c.cbc_decrypt key text) ≡ length text
  pub decrypt_encrypt :
      (key text : List ℕ)
      → c.new_cipher key ≡ true
      → length text % block_size ≡ 0
      → c.cbc_decrypt key (c.cbc_encrypt key text) ≡ text
  pub length_sum : (key text : List ℕ) → length (c.cmac_sum key text) ≡ block_size

-- CryptBlocks panics on a partial block.
abbrev pub crypt_blocks : (List ℕ → List ℕ) → List ℕ → Go (List ℕ)
crypt_blocks f text = if length text % block_size == 0 then done (f text) else panic

module _ (c : Crypto) where
  open c use {new_cipher, cbc_encrypt, cbc_decrypt, cmac_sum}

  -- `data[:16]` may reach into the bytes that follow the slice in memory.
  unfoldable pub prepare_cmac : List ℕ → List ℕ → List ℕ → Go (Option (List ℕ))
  prepare_cmac bytes following key =
      if not (new_cipher key)
      then done none
      else (slice (bytes ++ following) 0 16 >>= λ front. slice bytes 4 (length bytes) >>= λ rest.
          slice (cmac_sum key (front ++ rest)) 0 4 >>= λ mac. done (some mac))

  unfoldable pub cmac_unencrypted : List ℕ → List ℕ → Go (Option (List ℕ))
  cmac_unencrypted bytes key =
      if not (new_cipher key)
      then done none
      else (slice (cmac_sum key bytes) 0 4 >>= λ mac. done (some mac))

  abbrev pub block_pad : List ℕ → List ℕ
  block_pad text =
      if length text % block_size == 0
      then text
      else text ++ replicate (block_size - length text % block_size) 0

  -- The address bytes, the ciphertext and its CMAC. The nonce is sent as it is given.
  unfoldable pub seal : List ℕ → List ℕ → List ℕ → Go (Option (List ℕ))
  seal address encrypted key = prepare_cmac (address ++ encrypted) [] key >>= λ mac. elim mac [
    | none ↦ done none
    | some m ↦ done (some ((address ++ encrypted) ++ m))
  ]

  -- `none` is an error.
  unfoldable pub encrypt : List ℕ → List ℕ → List ℕ → ℕ → ℕ → Go (Option (List ℕ))
  encrypt address payload key opts nonce =
      let text = u8 opts ∷ nonce ∷ u8 (length payload) ∷ payload in
      if not (new_cipher key)
      then done none
      else (crypt_blocks (cbc_encrypt key) (block_pad text) >>= λ encrypted.
          let (bytes, decoded) = decode_string address in
          if decoded then seal bytes encrypted key else done none)

  -- The plaintext in place of the ciphertext, where the CMAC is right.
  unfoldable pub open_frame : List ℕ → List ℕ → List ℕ → Option (List ℕ) → Go (Option (List ℕ))
  open_frame bytes cm key none = done none
  open_frame bytes cm key (some expected) =
      if not (text_eq cm expected)
      then done none
      else if not (new_cipher key)
      then done none
      else (slice bytes 4 (length bytes - cmac_len) >>= λ body.
          crypt_blocks (cbc_decrypt key) body >>= λ decrypted.
          slice bytes 0 4 >>= λ address. done (some ((address ++ decrypted) ++ cm)))

  -- `following` is what lies behind the slice in memory. A result also overwrites `bytes`, whose length it has.
  unfoldable pub decrypt : List ℕ → List ℕ → List ℕ → Go (Option (List ℕ))
  decrypt bytes following key =
      if ltb (length bytes) cmac_len
      then panic
      else (let n = length bytes - cmac_len in
          let cm = drop n bytes in
          prepare_cmac (take n bytes) (cm ++ following) key >>= λ expected.
          open_frame bytes cm key expected)

  unfoldable pub decrypt_legacy : List ℕ → List ℕ → Go (Option (List ℕ))
  decrypt_legacy bytes key =
      if ltb (length bytes) 16
      then done none
      else if not (new_cipher key)
      then done none
      else (let n = length bytes - length bytes % 16 in
          crypt_blocks (cbc_decrypt key) (take n bytes) >>= λ decrypted.
          done (some (decrypted ++ drop n bytes)))
