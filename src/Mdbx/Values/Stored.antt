-- ===== src/Mdbx/Values/Stored.antt =====
-- MdbxLogger.hpp: everything that is stored is read back.
use log_it_cpp.Base.{ℕ, ◌≡◌, some, ◌∷◌, ◌++◌, length}
use log_it_cpp.Record.{Bytes}
use log_it_cpp.Mdbx.{ok, throws, trailing_bytes, ◌>>=◌}
use log_it_cpp.Mdbx.Values.{
  Session, Record, Payload, serialize_session, deserialize_session, serialize_record,
  deserialize_record, serialize_payload, deserialize_payload,
}
use log_it_cpp.Mdbx.Values.RoundTrip.{
  SessionFits, RecordFits, PayloadFits, deserialize-serialize_session, deserialize-serialize_record,
  deserialize-serialize_payload, deserialize_record-trailing,
}

-- A stored session, a stored record and a stored payload, each with fields that fit their C++ types,
-- are read back as they were stored; any bytes behind a stored record make it refused as having
-- trailing bytes.
pub stored_values_read_back :
    (s : Session) (r : Record) (p : Payload) (b : ℕ) (rest : Bytes)
    → SessionFits s
    → RecordFits r
    → PayloadFits p
    → ((serialize_session s >>= λ bytes. deserialize_session (some bytes) (length bytes)) ≡ ok s)
      × ((serialize_record r >>= λ bytes. deserialize_record (some bytes) (length bytes)) ≡ ok r)
      × ((serialize_payload p >>= λ bytes. deserialize_payload (some bytes) (length bytes)) ≡ ok p)
      × ((serialize_record r >>= λ bytes.
            deserialize_record (some (bytes ++ b ∷ rest)) (length (bytes ++ b ∷ rest)))
          ≡ throws trailing_bytes)
stored_values_read_back s r p b rest h k l = (
  deserialize-serialize_session s h,
  deserialize-serialize_record r k,
  deserialize-serialize_payload p l,
  deserialize_record-trailing r b rest k,
)
