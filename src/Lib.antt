-- ===== src/Lib.antt =====
-- A model of the csenc library, which encrypts and decrypts files in the Cloud Sync format, and the
-- theorems about it.
--
-- A csenc stream is a magic with its checksum, a metadata dict, data dicts and a metadata dict with
-- the MD5 of the plaintext. `Encrypt` (csenc/encrypt.go) drives a `Writer`: `io.Copy` calls its
-- `Write`, the first of which runs `start` (session key, metadata, pipeline); the bytes pass through
-- an optional LZ4 compressor, `aesFeeder` and `pendingSink` to the output, and `Close` completes them.
-- `Decrypt` (csenc/decrypt.go) reads values by `StreamReader` (csenc/wire.go), gathers metadata,
-- recovers the session key and feeds the data dicts to `decryptPipe`.
--
-- Files and what they model:
-- - Wire: csenc/wire.go. `Value` with its `Members`, `lookup`, and `readOne`, `readShortBlob` and `Next`
--   as read_one, read_short_blob and next. Wire/Emit describes the byte form of a value on its own.
-- - Io: `io.Writer` as an interface with its contract, and `bytes.Buffer`.
-- - Encoder: `wireEnc` and the functions that write the magic and the dicts (csenc/encrypt.go).
-- - Padding: `pkcs7Pad` and `unpadPKCS7`. Hex: encoding/hex. Keys: csenc/kdf.go and csenc/hash.go with
--   `verifyKeyHash`.
-- - Crypto, Lz4: interfaces for Go's crypto packages and base64, and for the LZ4 codec, with the
--   documented behaviour that the code relies on as laws.
-- - Pipeline: `aesFeeder` and `pendingSink`. Session: `EncryptOptions` and the key material of `start`.
--   Writer: `NewWriter`, `Write`, `Close`, `abort`, `start` and `Encrypt`.
-- - Metadata, Recover: `Metadata.absorb`, `checkModes`, `consumeMagic` and `recoverSessionKey`.
--   Payload: `decryptPipe`. Decrypt: `Decrypt`, and `Inspect` in Decrypt/Inspect.
-- - Os: files, paths and directories as an interface. File: csenc/file.go and `EncryptFile`
--   (csenc/encrypt.go), which write a temporary file and rename it. Pem: `LoadRSAPrivateKey`,
--   `LoadRSAPublicKey` and `parseRSAPublicKeyPEM`, over an interface for encoding/pem and crypto/x509.
-- - Batch: csenc/batch.go. Discovery and one job as functions on the files; Batch/Pool has the workers
--   as a step relation, in which every addition to the report is a step of its own.
-- - Reader: csenc/reader.go and `OpenFile`; the pipe is a writer that fails behind the bytes that the
--   consumer takes before it closes.
-- - Cli: cmd/cloudsync-decrypt/main.go. Cli/Units is the encrypting batch, whose workers run as those of
--   Batch/Pool do, and Cli/Text has `parseVersion`, `trimEOL` and the scale of `humanBytes`. Cli/Exit
--   says what command lines are misuse, Cli/Numeral and Cli/Version what a version is.
-- - Common: results, errors, signed integers, lists measured by native numbers, and actions, which
--   take a state to a state and a result.
-- - Examples: the operations at concrete inputs, with stand-ins for the interfaces.
--
-- A byte string is a list of numbers; a reader is the bytes that it has still to deliver and the error
-- that ends them. `readOne` recurs on fuel, two units for each byte and one more; the loops of `Decrypt`
-- and `Inspect` have a unit for each value that can still come, which takes a byte at least; the loop
-- of `pendingSink` has a unit for each buffered byte, of which a round takes one chunk, and that of
-- `evpKDF` one for each byte that is needed, of which a round adds sixteen.
-- The goroutine of `decryptPipe` is the state of its copy loop, as a `Write` to its pipe returns only
-- when every byte has been taken or the loop has ended; `doneCh` is the one value that is sent to it and
-- the number of the receives.
--
-- The loop of `humanBytes` has six units, since an int64 is divided by 1024 five times at most.
--
-- Not modelled: the message texts of errors, the log hooks, durations and `Format` of the batch report;
-- of cmd/cloudsync-decrypt the parsing of flags, the progress lines, the decimal of `humanBytes` and
-- the JSON of -inspect, which are terminal input and output.
pub mod Common
pub mod Wire
pub mod Io
pub mod Encoder
pub mod Padding
pub mod Hex
pub mod Crypto
pub mod Keys
pub mod Pipeline
pub mod Lz4
pub mod Metadata
pub mod Session
pub mod Writer
pub mod Recover
pub mod Payload
pub mod Decrypt
pub mod Os
pub mod File
pub mod Batch
pub mod Pem
pub mod Cli
pub mod Reader
mod Examples
