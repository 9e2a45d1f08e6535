-- ===== src/Mdbx/Values.antt =====
-- loggers/MdbxLogger.hpp: the stored values and their serialization. `level` of a record is the
-- number of the enumerator, which `deserialize_record` takes as it comes.
pub mod RoundTrip
pub mod Stored
use log_it_cpp.Base.{
  ℕ, ◌+◌, ◌-◌, ◌*◌, ◌/◌, ◌%◌, ◌^◌, ◌≡◌, Bool, true, false, Option, some, List, [], ltb, ◌==◌,
  if◌then◌else◌,
}
use log_it_cpp.Base.Ints.{ℤ, pos, negsuc}
use log_it_cpp.Record.{Bytes}
use log_it_cpp.Mdbx.{
  Result, ok, throws, unsupported_version, decode_error, ◌>>=◌, ◌>>◌, i64_bits, write_u8, write_u32,
  write_u64, write_i64, write_string, open_reader, read_u8, read_u32, read_u64, read_i64,
  read_string, finish, Failure,
}

pub data Compression : Type 0 where
  uncompressed gzip zstd : Compression

abbrev pub compression_index : Compression → ℕ
compression_index uncompressed = 0
compression_index gzip = 1
compression_index zstd = 2

pub record Session : Type 0 where
  pub app_name : Bytes
  pub start_time_ms : ℤ
  pub end_time_ms : ℤ
  pub process_id : ℕ
  pub schema_version : ℕ

pub record Record : Type 0 where
  pub session_id : ℕ
  pub timestamp_ms : ℤ
  pub sequence : ℕ
  pub level : ℕ
  pub message : Bytes
  pub payload_id : ℕ
  pub file : Bytes
  pub function : Bytes
  pub line : ℤ

pub record Payload : Type 0 where
  pub payload_id : ℕ
  pub compression : Compression
  pub data_ : Bytes

-- `static_cast<int>`: the lower 32 bits, signed.
pub to_int : ℤ → ℤ
to_int z =
    if ltb (i64_bits z % 2 ^ 32) (2 ^ 31)
    then pos (i64_bits z % 2 ^ 32)
    else negsuc (2 ^ 32 - 1 - i64_bits z % 2 ^ 32)

abbrev pub check_version : ℕ → Result (Unit {0})
check_version version = if version == 1 then ok tt else throws unsupported_version

-- `static_cast<MdbxPayloadCompression>` behind its range check.
pub to_compression : ℕ → Result Compression
to_compression byte =
    if byte == 0
    then ok uncompressed
    else if byte == 1
    then ok gzip
    else if byte == 2
    then ok zstd
    else throws decode_error

pub serialize_session : Session → Result Bytes
serialize_session s = do
  out ← write_string (write_u32 [] 1) s.app_name
  ok (
      write_u32 (write_u64 (write_i64 (write_i64 out s.start_time_ms) s.end_time_ms) s.process_id)
        s.schema_version)

pub deserialize_session : Option Bytes → ℕ → Result Session
deserialize_session value size = do
  cur ← open_reader value size
  (version, cur) ← read_u32 cur
  check_version version
  (app_name, cur) ← read_string cur
  (start_time_ms, cur) ← read_i64 cur
  (end_time_ms, cur) ← read_i64 cur
  (process_id, cur) ← read_u64 cur
  (schema_version, cur) ← read_u32 cur
  finish cur
  ok (record {
    app_name = app_name;
    start_time_ms = start_time_ms;
    end_time_ms = end_time_ms;
    process_id = process_id;
    schema_version = schema_version;
  })

pub serialize_record : Record → Result Bytes
serialize_record r = do
  out ←
      write_string
        (write_u32
          (write_u32 (write_i64 (write_u64 (write_u32 [] 1) r.session_id) r.timestamp_ms)
            r.sequence)
          r.level)
        r.message
  out ← write_string (write_u64 out r.payload_id) r.file
  out ← write_string out r.function
  ok (write_i64 out r.line)

pub deserialize_record : Option Bytes → ℕ → Result Record
deserialize_record value size = do
  cur ← open_reader value size
  (version, cur) ← read_u32 cur
  check_version version
  (session_id, cur) ← read_u64 cur
  (timestamp_ms, cur) ← read_i64 cur
  (sequence, cur) ← read_u32 cur
  (level, cur) ← read_u32 cur
  (message, cur) ← read_string cur
  (payload_id, cur) ← read_u64 cur
  (file, cur) ← read_string cur
  (function, cur) ← read_string cur
  (line, cur) ← read_i64 cur
  finish cur
  ok (record {
    session_id = session_id;
    timestamp_ms = timestamp_ms;
    sequence = sequence;
    level = level;
    message = message;
    payload_id = payload_id;
    file = file;
    function = function;
    line = to_int line;
  })

pub serialize_payload : Payload → Result Bytes
serialize_payload p =
    write_string
      (write_u8 (write_u64 (write_u32 [] 1) p.payload_id) (compression_index p.compression)) p.data_

pub deserialize_payload : Option Bytes → ℕ → Result Payload
deserialize_payload value size = do
  cur ← open_reader value size
  (version, cur) ← read_u32 cur
  check_version version
  (payload_id, cur) ← read_u64 cur
  (byte, cur) ← read_u8 cur
  compression ← to_compression byte
  (text, cur) ← read_string cur
  finish cur
  ok (record { payload_id = payload_id; compression = compression; data_ = text })
