-- ===== src/Lib.antt =====
-- A model of go-nmea-client, a library that reads NMEA 2000 messages: frames of the CAN bus and the
-- byte formats of Actisense gateways become messages (`RawMessage`), whose bytes are then decoded to
-- the values of fields.
--
-- The parts and their files:
-- * Canbus models canbus.go: `CanBusHeader`, `Uint32` and `ParseCANID`. Layout has both conversions as
--   arithmetic, RoundTrip their compositions.
-- * Nmea models nmea.go: `RawFrame`, `RawMessage`, `couldBeFastPacket` and `MarshalRawMessage`.
-- * FastPacket models one `fastPacketSequence` of fastpacket.go, with `Append`, `Reset`, `To` and `As`.
--   Masks, Blocks and Transfer say what a sequence holds after some frames of a message, Reassembly
--   and Delivery what becomes of a whole message.
-- * FastPacket/Assembler models `FastPacketAssembler.Assemble` over the sequences in transfer. A call
--   is one step, as the lock makes it. Refinement states a call by the sequence it picks, whatever the
--   order of the list; Uniqueness and Safety are about what is kept from call to call, Calls and Alone
--   about the calls for one message.
-- * Actisense models actisense/binaryreader.go: Crc the checksum, Messages the four parsers, Binary the
--   byte-wise reader `ReadRawMessage` and the writer `writeBstMessage`.
-- * Actisense/Ebl models actisense/eblreader.go: the reader of log files and the BST-95 parser.
-- * Actisense/RawAscii models actisense/rawasciidevice.go: lines of text, with the reader that cuts them
--   from the reads of the device. Lines has the lengths of frames and lines, Hex the digits, Assembling
--   the loop that gives the frames to the assembler of fastpacket.go.
-- * Actisense/N2kAscii models actisense/n2kasciidevice.go: the lines in the root, of which Blocks is about
--   the parser's search for digits and Headers about the addresses that are written, and Reader the
--   loop that cuts lines from the reads of the device, with Pieces about a line in several reads.
-- * RawData models the decoders of fieldvalue.go, RawData/Values the values of fields. Bits and Uint are
--   about integers at any bit, Aligned and Text about fields of whole bytes, Hex about `AsHex`.
-- * Canboat models canboat/enum.go, the lookups of enumerations; Canboat/Database models the definitions
--   of PGNs in canboat/canboatpgns.go, with the validation of a field and the choice among variants,
--   Validation `PGNs.Validate`, Fields `Field.Decode`.
-- * Canboat/Decoder models canboat/decoder.go: the index that `NewDecoder` makes of the schema and the
--   decoding of a PGN without repeating fields, Repeated the loop over repeating fields, Messages the
--   values of enumerations and `Decode` as a whole. Index, Offsets, Enums, Rounds, Returns, Phases,
--   Groups and Merged are about these.
-- * AddressMapper models addressmapper/addressmapper.go: Names the NAME of a node, from an address claim
--   and back to bytes, Products the product information. Table is the mapper's state with `Process`, one
--   step on the nodes and the slots of the addresses: a pointer to a node is its NAME, and the requests
--   of a call are in its result. Nodes and Claims say what a call keeps, Arbitration who has an address,
--   Sent what is asked, Losers and InUse what becomes of a node without an address. Requests is the
--   queue of requests and the loop of `Run`.
-- * Canboat/Text models canboat/inputoutput.go and canboat/device.go, messages as lines of text: RoundTrip
--   is about a message that is written and read, Bounds about a line that is accepted, Reader about a
--   file. Text has the functions of Go's packages for texts and decimal numbers that it uses.
-- * SocketCan models socketcan/: the frames of a socket (Frames, RoundTrip), and the device, whose loop is
--   a step for each round. Waiting says when a call returns, Delivery that a message arrives.
-- * N2kReader models the program in cmd/n2kreader/, main.go and csv.go: the parsing of lines, filters and
--   numbers in the root, of which Lines and Filters are about. Stdin has the commands of the standard
--   input, Csv the fields and rows of CSV files (Columns says what a row shows, Rows that it does), Loop the
--   loop of `main` as a step for each read, with Refused about the messages that the filters keep out,
--   Throttled about those that pass the throttle and Printed about what is printed.
-- * Utils models internal/utils/strings.go: the text of bytes in a log.
-- * Common has the shared lists, results, words and laws of bits.
--
-- The parts meet in `RawFrame` and `RawMessage`: the assembler and the Actisense reader produce
-- messages, with headers that `ParseCANID` makes of CAN identifiers, and the decoders read their bytes.
--
-- Conventions. A number of Go's unsigned types is a natural number, with the conversions `u8` to `u64`
-- and the shifts written out where the source has them. A result is a value, an error or a panic (see
-- Common/Results); an index or a slice out of range is a panic. Times are nanoseconds. An error is a
-- constructor for each place that returns one, without its text. Reading from a device is a function of
-- the events on it, and writing of the outcomes of its writes: the loops end with the state in which
-- they wait where these run out, so no fuel is needed; the other loops follow a list or a counter that
-- the source fixes. The loop over repeating fields goes on as long as it reads bits: it has fuel. One
-- for each bit of the message and one more are enough, where every field has a length of its own.
--
-- Not modelled: logs, the sleep between two writes, the text of errors; the calendar and the text of
-- hexadecimal bytes of a log, which belong to Go's library; JSON of canboat/, the opening of a socket;
-- the flags, the files and the goroutines of cmd/n2kreader. Decoding of UTF-16 text, the arithmetic of
-- floats, the clock, the objects of a `sync.Pool` and the reading of a time as nanoseconds since 1970
-- belong to Go's library and are arguments.
pub mod Common
pub mod Canbus
pub mod Nmea
pub mod FastPacket
pub mod Actisense
pub mod RawData
pub mod Canboat
pub mod AddressMapper
pub mod N2kReader
pub mod SocketCan
pub mod Text
pub mod Utils
