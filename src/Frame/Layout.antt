-- ===== src/Frame/Layout.antt =====
-- utils/utils.go: the places in a frame, the payload and its length, and the write modes.
use module_core_loraraw.Prelude.{
  ℕ, ◌+◌, ◌-◌, Bool, true, false, List, none, some, length, get_elem?, take, drop, leb, ltb,
  if◌then◌else◌,
}
use module_core_loraraw.Prelude.Go.{Go, done, panic, ◌>>=◌}

abbrev pub opts_position : ℕ
opts_position = 4

abbrev pub nonce_position : ℕ
nonce_position = 5

abbrev pub length_position : ℕ
length_position = 6

abbrev pub payload_start : ℕ
payload_start = 7

abbrev pub header_len : ℕ
header_len = 4

-- LoRaRAWOpts.
abbrev pub opts_unconfirmed_uplink : ℕ
opts_unconfirmed_uplink = 0

abbrev pub opts_confirmed_uplink : ℕ
opts_confirmed_uplink = 1

abbrev pub opts_ack : ℕ
opts_ack = 2

abbrev pub opts_request : ℕ
opts_request = 3

abbrev pub opts_response : ℕ
opts_response = 4

-- `data[i]`
abbrev pub byte_at : List ℕ → ℕ → Go ℕ
byte_at bytes i = elim (get_elem? bytes i) [ none ↦ panic | some b ↦ done b ]

-- `data[from:to]`, where the slice's capacity is its length.
abbrev pub slice : List ℕ → ℕ → ℕ → Go (List ℕ)
slice bytes from to =
    if ltb (length bytes) to
    then panic
    else if ltb to from
    then panic
    else done (take (to - from) (drop from bytes))

unfoldable pub inner_payload_length : List ℕ → Go ℕ
inner_payload_length bytes = byte_at bytes length_position

-- `innerDataLength <= len(data) - 9`, on integers.
unfoldable pub check_payload_length : List ℕ → Go Bool
unfolding inner_payload_length
check_payload_length bytes = do
  inner ← inner_payload_length bytes
  done (leb (inner + 9) (length bytes))

unfoldable pub strip_payload : List ℕ → Go (List ℕ)
unfolding inner_payload_length
strip_payload bytes = do
  inner ← inner_payload_length bytes
  slice bytes payload_start (payload_start + inner)

-- The write modes that IsWriteable names, and any other text.
pub data WriteMode : Type 0 where
  read_once read_only write_once write_once_read_once write_always write_once_then_read : WriteMode
  write_and_maintain other_mode : WriteMode

unfoldable pub is_writeable : WriteMode → Bool
is_writeable read_once = false
is_writeable read_only = false
is_writeable other_mode = false
is_writeable _ = true
