-- ===== src/Mdbx/Tests.antt =====
-- Concrete values of the MdbxLogger's tables.
use log_it_cpp.Base.{◌≡◌, ◌++◌, refl, not, ◌&&◌, ◌||◌, some, [], ◌∷◌, arith, length, ltb}
use log_it_cpp.Base.Ints.{pos, negsuc, ltb_ℤ}
use log_it_cpp.Mdbx.{ok, throws, trailing_bytes, corrupted, ◌>>=◌, read_u32, require}
use log_it_cpp.Mdbx.Values.{
  Session, Record, Payload, gzip, serialize_session, deserialize_session, serialize_record,
  deserialize_record, serialize_payload, deserialize_payload,
}
use log_it_cpp.Mdbx.Values.RoundTrip.{SessionFits, RecordFits}
use log_it_cpp.Mdbx.Values.Stored.{stored_values_read_back}
use log_it_cpp.Mdbx.Keys.{make_mdbx_record_key, bytes_ltb}
use log_it_cpp.Mdbx.Keys.Order.{bytes_ltb-make_mdbx_record_key}

abbrev a_session : Session
a_session = record {
  app_name = 97 ∷ 98 ∷ [];
  start_time_ms = pos 1700000000000;
  end_time_ms = negsuc 0;
  process_id = 4242;
  schema_version = 1;
}

abbrev a_record : Record
a_record = record {
  session_id = 7;
  timestamp_ms = negsuc 4;
  sequence = 3;
  level = 4;
  message = 104 ∷ 105 ∷ [];
  payload_id = 0;
  file = 109 ∷ [];
  function = [];
  line = pos 12;
}

abbrev a_payload : Payload
a_payload = record { payload_id = 9; compression = gzip; data_ = 31 ∷ 139 ∷ [] }

a_session_fits : SessionFits a_session
a_session_fits = record {
  name_fits = omega arith;
  start_fits = omega arith;
  end_fits = omega arith;
  process_fits = omega arith;
  schema_fits = omega arith;
}

a_record_fits : RecordFits a_record
a_record_fits = record {
  session_fits = omega arith;
  timestamp_fits = omega arith;
  sequence_fits = omega arith;
  level_fits = omega arith;
  message_fits = omega arith;
  payload_fits = omega arith;
  file_fits = omega arith;
  function_fits = omega arith;
  line_fits = omega arith;
}

stored_values_read_back_example :
    ((serialize_session a_session >>= λ bytes. deserialize_session (some bytes) (length bytes))
      ≡ ok a_session)
    × ((serialize_record a_record >>= λ bytes. deserialize_record (some bytes) (length bytes))
        ≡ ok a_record)
    × ((serialize_payload a_payload >>= λ bytes. deserialize_payload (some bytes) (length bytes))
        ≡ ok a_payload)
    × ((serialize_record a_record >>= λ bytes.
          deserialize_record (some (bytes ++ 0 ∷ [])) (length (bytes ++ 0 ∷ [])))
        ≡ throws trailing_bytes)
stored_values_read_back_example =
    stored_values_read_back a_session a_record a_payload 0 [] a_session_fits a_record_fits
      (record { id_fits = omega arith; text_fits = omega arith })

bytes_ltb-make_mdbx_record_key_example :
    bytes_ltb (make_mdbx_record_key (negsuc 4) 9) (make_mdbx_record_key (pos 2) 0)
    ≡ (ltb_ℤ (negsuc 4) (pos 2) || (not (ltb_ℤ (pos 2) (negsuc 4)) && ltb 9 0))
bytes_ltb-make_mdbx_record_key_example =
    bytes_ltb-make_mdbx_record_key (negsuc 4) (pos 2) 9 0 (omega arith) (omega arith) (omega arith)
      (omega arith)

short_value_test : read_u32 (1 ∷ 2 ∷ 3 ∷ []) ≡ throws corrupted
unfolding read_u32 require
short_value_test = refl
