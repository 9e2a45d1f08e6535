-- ===== src/Mdbx/Values/RoundTrip.antt =====
-- MdbxLogger.hpp: what is stored is read back.
use log_it_cpp.Base.{
  ℕ, ◌^◌, ◌≡◌, ◌<◌, refl, sym, some, [], ◌∷◌, ◌++◌, length, take, arith, append_assoc, append-nil,
}
use log_it_cpp.Base.Ints.{ℤ, pos, negsuc}
use log_it_cpp.Record.{Bytes}
use log_it_cpp.Mdbx.{
  ok, throws, trailing_bytes, ◌>>=◌, u32_bytes, u64_bytes, i64_bits, write_u8, write_u32, write_u64,
  write_i64, write_string, open_reader, read_u8, read_string, finish,
}
use log_it_cpp.Mdbx.Numbers.{
  read-u32_bytes, read-u64_bytes, read-i64_bytes, read-string_bytes, IsInt64,
}
use log_it_cpp.Mdbx.Values.{
  Session, Record, Payload, Compression, uncompressed, gzip, zstd, compression_index, to_int,
  to_compression, serialize_session, deserialize_session, serialize_record, deserialize_record,
  serialize_payload, deserialize_payload,
}

string_bytes : Bytes → Bytes
string_bytes t = u32_bytes (length t) ++ t

write_string-ok :
    (out t : Bytes) → length t < 2 ^ 32 → write_string out t ≡ ok (out ++ string_bytes t)
unfolding write_string write_u32 string_bytes
write_string-ok out t h = rw (sym (append_assoc out (u32_bytes (length t)) t)) (ground arith)

read-string_lem :
    (t rest : Bytes) → length t < 2 ^ 32 → read_string (string_bytes t ++ rest) ≡ ok (t, rest)
unfolding string_bytes
read-string_lem t rest h =
    rw (append_assoc (u32_bytes (length t)) t rest) (read-string_bytes t rest h)

take_all : (bs : Bytes) → take (length bs) bs ≡ bs
take_all [] = refl
take_all (b ∷ bs) = rw (take_all bs)

open_reader-all : (bs : Bytes) → open_reader (some bs) (length bs) ≡ ok bs
unfolding open_reader
open_reader-all bs = rw (take_all bs)

-- The values that fit the fields' C++ types.
pub record SessionFits (s : Session) : Type 0 where
  pub name_fits : length s.app_name < 2 ^ 32
  pub start_fits : IsInt64 s.start_time_ms
  pub end_fits : IsInt64 s.end_time_ms
  pub process_fits : s.process_id < 2 ^ 64
  pub schema_fits : s.schema_version < 2 ^ 32

session_bytes : Session → Bytes
session_bytes s =
    u32_bytes 1
    ++ (string_bytes s.app_name
        ++ (u64_bytes (i64_bits s.start_time_ms)
            ++ (u64_bytes (i64_bits s.end_time_ms)
                ++ (u64_bytes s.process_id ++ (u32_bytes s.schema_version ++ [])))))

serialize_session-ok : (s : Session) → SessionFits s → serialize_session s ≡ ok (session_bytes s)
unfolding serialize_session session_bytes write_u32 write_i64 write_u64
serialize_session-ok s h =
    rw (write_string-ok (u32_bytes 1) s.app_name h.name_fits) (simp (append_assoc, append-nil))

deserialize_session-bytes :
    (s : Session)
    → SessionFits s
    → deserialize_session (some (session_bytes s)) (length (session_bytes s)) ≡ ok s
unfolding deserialize_session session_bytes finish
deserialize_session-bytes s h = rw (
  open_reader-all (session_bytes s),
  read-u32_bytes 1 _ (omega arith),
  read-string_lem s.app_name _ h.name_fits,
  read-i64_bytes s.start_time_ms _ h.start_fits,
  read-i64_bytes s.end_time_ms _ h.end_fits,
  read-u64_bytes s.process_id _ h.process_fits,
  read-u32_bytes s.schema_version _ h.schema_fits,
)

-- A session whose fields fit their types is read back as it was stored.
pub deserialize-serialize_session :
    (s : Session)
    → SessionFits s
    → (serialize_session s >>= λ bytes. deserialize_session (some bytes) (length bytes)) ≡ ok s
deserialize-serialize_session s h = rw (serialize_session-ok s h) (deserialize_session-bytes s h)

-- The values of an `int`.
abbrev pub IsInt32 : ℤ → Type 0
IsInt32 (pos n) = n < 2 ^ 31
IsInt32 (negsuc n) = n < 2 ^ 31

to_int-int32 : (z : ℤ) → IsInt32 z → to_int z ≡ z
unfolding to_int i64_bits
to_int-int32 (pos n) h = ground arith
to_int-int32 (negsuc n) h = ground arith

int32-IsInt64 : (z : ℤ) → IsInt32 z → IsInt64 z
int32-IsInt64 (pos n) h = omega arith
int32-IsInt64 (negsuc n) h = omega arith

pub record RecordFits (r : Record) : Type 0 where
  pub session_fits : r.session_id < 2 ^ 64
  pub timestamp_fits : IsInt64 r.timestamp_ms
  pub sequence_fits : r.sequence < 2 ^ 32
  pub level_fits : r.level < 2 ^ 32
  pub message_fits : length r.message < 2 ^ 32
  pub payload_fits : r.payload_id < 2 ^ 64
  pub file_fits : length r.file < 2 ^ 32
  pub function_fits : length r.function < 2 ^ 32
  pub line_fits : IsInt32 r.line

record_bytes : Record → Bytes → Bytes
record_bytes r rest =
    u32_bytes 1
    ++ (u64_bytes r.session_id
        ++ (u64_bytes (i64_bits r.timestamp_ms)
            ++ (u32_bytes r.sequence
                ++ (u32_bytes r.level
                    ++ (string_bytes r.message
                        ++ (u64_bytes r.payload_id
                            ++ (string_bytes r.file
                                ++ (string_bytes r.function
                                    ++ (u64_bytes (i64_bits r.line) ++ rest)))))))))

serialize_record-ok : (r : Record) → RecordFits r → serialize_record r ≡ ok (record_bytes r [])
unfolding serialize_record record_bytes write_u32 write_i64 write_u64
serialize_record-ok r h =
    rw
      (
        write_string-ok _ r.message h.message_fits,
        write_string-ok _ r.file h.file_fits,
        write_string-ok _ r.function h.function_fits,
      )
      (simp (append_assoc, append-nil))

append-record_bytes : (r : Record) (rest : Bytes) → record_bytes r [] ++ rest ≡ record_bytes r rest
unfolding record_bytes
append-record_bytes r rest = simp append_assoc

deserialize_record-bytes :
    (r : Record) (rest : Bytes)
    → RecordFits r
    → deserialize_record (some (record_bytes r rest)) (length (record_bytes r rest))
      ≡ (finish rest >>= λ u. ok r)
unfolding deserialize_record record_bytes
deserialize_record-bytes r rest h = rw (
  open_reader-all (record_bytes r rest),
  read-u32_bytes 1 _ (omega arith),
  read-u64_bytes r.session_id _ h.session_fits,
  read-i64_bytes r.timestamp_ms _ h.timestamp_fits,
  read-u32_bytes r.sequence _ h.sequence_fits,
  read-u32_bytes r.level _ h.level_fits,
  read-string_lem r.message _ h.message_fits,
  read-u64_bytes r.payload_id _ h.payload_fits,
  read-string_lem r.file _ h.file_fits,
  read-string_lem r.function _ h.function_fits,
  read-i64_bytes r.line _ (int32-IsInt64 r.line h.line_fits),
  to_int-int32 r.line h.line_fits,
)

-- A record whose fields fit their types is read back as it was stored.
pub deserialize-serialize_record :
    (r : Record)
    → RecordFits r
    → (serialize_record r >>= λ bytes. deserialize_record (some bytes) (length bytes)) ≡ ok r
unfolding finish
deserialize-serialize_record r h = rw (serialize_record-ok r h, deserialize_record-bytes r [] h)

-- Bytes after a stored record are an error, whatever they are.
pub deserialize_record-trailing :
    (r : Record) (b : ℕ) (rest : Bytes)
    → RecordFits r
    → (serialize_record r >>= λ bytes.
        deserialize_record (some (bytes ++ b ∷ rest)) (length (bytes ++ b ∷ rest)))
      ≡ throws trailing_bytes
unfolding finish
deserialize_record-trailing r b rest h = rw (
  serialize_record-ok r h,
  append-record_bytes r (b ∷ rest),
  deserialize_record-bytes r (b ∷ rest) h,
)

pub record PayloadFits (p : Payload) : Type 0 where
  pub id_fits : p.payload_id < 2 ^ 64
  pub text_fits : length p.data_ < 2 ^ 32

payload_bytes : Payload → Bytes
payload_bytes p =
    u32_bytes 1
    ++ (u64_bytes p.payload_id ++ (compression_index p.compression ∷ (string_bytes p.data_ ++ [])))

serialize_payload-ok : (p : Payload) → PayloadFits p → serialize_payload p ≡ ok (payload_bytes p)
unfolding serialize_payload payload_bytes write_u8 write_u32 write_u64
serialize_payload-ok p h =
    rw (write_string-ok _ p.data_ h.text_fits) (simp (append_assoc, append-nil))

to_compression-index : (c : Compression) → to_compression (compression_index c) ≡ ok c
unfolding to_compression
to_compression-index uncompressed = refl
to_compression-index gzip = refl
to_compression-index zstd = refl

deserialize_payload-bytes :
    (p : Payload)
    → PayloadFits p
    → deserialize_payload (some (payload_bytes p)) (length (payload_bytes p)) ≡ ok p
unfolding deserialize_payload payload_bytes finish read_u8
deserialize_payload-bytes p h = rw (
  open_reader-all (payload_bytes p),
  read-u32_bytes 1 _ (omega arith),
  read-u64_bytes p.payload_id _ h.id_fits,
  to_compression-index p.compression,
  read-string_lem p.data_ _ h.text_fits,
)

-- A payload whose fields fit their types is read back as it was stored.
pub deserialize-serialize_payload :
    (p : Payload)
    → PayloadFits p
    → (serialize_payload p >>= λ bytes. deserialize_payload (some bytes) (length bytes)) ≡ ok p
deserialize-serialize_payload p h = rw (serialize_payload-ok p h, deserialize_payload-bytes p h)
