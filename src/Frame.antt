-- ===== src/Frame.antt =====
-- The LoRaRAW frame: utils/utils.go, aesutils/aesutils.go, codec/base.go and the frame functions of pkg/app.go.
-- A frame is | address 4 | opts 1 | nonce 1 | length 1 | payload | CMAC 4 | RSSI 1 | SNR 1 |.
pub mod Layout
pub mod Hex
pub mod Trailer
pub mod Cipher
pub mod Packet
pub mod Safety
pub mod RoundTrip
