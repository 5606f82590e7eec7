-- ===== src/Lib.antt =====
-- The radio side of the module, as a library of definitions and theorems.
--
-- A frame arrives from the serial port in hex (pkg/app.go, dispatchFrame). It is decrypted with the
-- device's key (aesutils/aesutils.go), or taken as plaintext where the device's model allows that
-- (codecs/codecs.go), stripped to its payload (utils/utils.go) and decoded by the model's decoder; for
-- Rubix devices that is a stream of bits (codecs/rubixDataEncoding), for the others bytes at fixed places
-- (codecs/legacyDecoders). A write goes the other way: it
-- waits in its device's queue (pkg/writeQueue.go), the manager picks the queues in turn
-- (pkg/writeQueueManager.go), encodes, encrypts and sends one frame, and waits for the RESPONSE.
--
-- Files:
--   Prelude       names of the libraries, list functions, Go calls that may panic, texts, decimals
--   Bits          numbers as bits, bytes as bits, Go's `|`
--   Rubix         codecs/rubixDataEncoding: Serial is serialdata.go, MetaData serialmap.go, Encoder and
--                 Request encoder.go, Decoder, Fields and Points decoder.go; Widths, Settings and RoundTrip
--                 hold theorems
--   Frame         Layout is utils/utils.go, Cipher aesutils/aesutils.go, Trailer codec/base.go, Packet the
--                 frame functions of pkg/app.go; Safety and RoundTrip hold theorems
--   Dispatch      dispatchFrame and the handlers of pkg/app.go, the descriptions of codec/codecDefinitions.go
--                 and the table of codecs/codecs.go; Policy holds theorems, and Rubix runs the Rubix decoders
--                 on what the dispatch hands to them
--   Legacy        codecs/legacyDecoders: Droplet, MicroEdge and ZipHydroTap are the files of these names;
--                 HexInt is strconv.ParseInt on hex, with its theorems in Bytes; Layout, Safety, Merge,
--                 Places, Accepted and Total hold theorems and the tables that they refer to
--   WriteQueue    pkg/writeQueue.go, and in Manager pkg/writeQueueManager.go; Ledger is the
--                 abstract queue, with its calls in Attempts; Devices has the manager's calls; Order, Steps,
--                 Answered, Named, Fifo, Retry, Fair and the other files of Ledger and Manager hold theorems
--   Points        pkg/dbWriter.go, and addNetwork to writePoint and addDevicePoints to
--                 updateDevicePointsAddress of pkg/app.go: Store has the models and the marshaller's interface,
--                 Uart the table of UART points, Fields new points, Writer the writes, Setup devices and
--                 networks; Invariant and Operations hold theorems
--   Config        pkg/config.go; Valid holds the theorem
--   Router        pkg/router.go and the open writes of pkg/enable.go; Requeue and Requests hold theorems
--   Serial        pkg/run.go as a state machine, and the network of SerialOpen; Loop holds theorems
--   Tests         small instances of the parameters, and the theorems applied to them
--
-- State is passed explicitly: SerialData is the buffer with its two cursors, PointWriteQueue the
-- items with the queue of their numbers, PointWriteQueueManager the map of queues with rrIndex. A Go call
-- is `done` or `panic`; an error that the code only logs is `none`. Machine words wrap as they are written
-- (`% 2 ^ w`). Fuel: the loop of DecodeRubix has one unit for each bit of the payload, and a round reads
-- six bits at least; getBitCount's loop has 64 beyond its first width, enough for a uint64. It compares
-- exact numbers, where the source has float64: these agree for sizes up to 2 ^ 53 and less than 20 decimals, which
-- the table keeps far below.
--
-- Parameters: floats (Rubix/Floats), AES-CBC and CMAC with their laws (Frame/Cipher), the database lookup
-- of a device, the errors that the callbacks return, the thermistor table, and the order in which Go
-- walks a map, the database behind the gRPC marshaller (Points/Store), title case, YAML and log levels.
-- The goroutines of savePoints run one after the other, in any order. The dispatch reaches a decoder as an effect
-- in a list, on which Dispatch/Rubix runs the Rubix decoders, and takes the length checks of the
-- legacy decoders as arguments. Not modelled: what is input and output
-- around the parts above: JSON, the HTTP and gRPC routes, MQTT, the serial device and its send channel, and
-- schemas; point creation by
-- reflection, which nothing calls. The goroutines and channels of the scheduler are a sequence of the queue's
-- methods.
pub mod Prelude
pub mod Bits
pub mod Dispatch
pub mod Frame
pub mod Rubix
pub mod Legacy
pub mod WriteQueue
pub mod Points
pub mod Config
pub mod Serial
pub mod Router
pub mod Tests
