-- ===== src/Mdbx/Sequence.antt =====
-- loggers/MdbxLogger.hpp: the sequence number that tells records of one timestamp apart
-- (next_record_key_locked, advance_sequence_after_collision). The record table is the parameter
-- `contains`. m_next_sequence_by_timestamp is a function; a uint32_t is below 2^32.
pub mod Fresh
mod Tests
use log_it_cpp.Base.{
  ℕ, zero, suc, ◌+◌, ◌-◌, ◌^◌, Bool, true, false, not, ◌&&◌, Option, none, some, ltb, ◌==◌,
  if◌then◌else◌,
}
use log_it_cpp.Base.Ints.{ℤ, ltb_ℤ}
use log_it_cpp.Record.{Bytes}
use log_it_cpp.Mdbx.Keys.{make_mdbx_record_key}

abbrev pub max_sequence : ℕ
max_sequence = 2 ^ 32 - 1

-- The result of the search: a sequence number, or the exception "sequence exhausted".
pub data Search : Type 0 where
  found : ℕ → Search
  exhausted : Search
  out_of_fuel : Search

abbrev pub SequenceMap : Type 0
SequenceMap = ℤ → Option ℕ

abbrev pub same_time : ℤ → ℤ → Bool
same_time a b = not (ltb_ℤ a b) && not (ltb_ℤ b a)

pub set_next : SequenceMap → ℤ → ℕ → SequenceMap
set_next next timestamp sequence t = if same_time timestamp t then some sequence else next t

abbrev pub first_candidate : Option ℕ → ℕ
first_candidate none = 0
first_candidate (some n) = n

module _ (contains : Bytes → Bool) where
  -- The loop of next_record_key_locked.
  pub search : ℕ → ℤ → ℕ → Search
  search zero timestamp candidate = out_of_fuel
  search (suc fuel) timestamp candidate =
      let rest = search fuel timestamp (candidate + 1) in
      if not (contains (make_mdbx_record_key timestamp candidate))
      then found candidate
      else if candidate == max_sequence
      then exhausted
      else rest

  abbrev pub remember : SequenceMap → ℤ → Search → SequenceMap
  remember next timestamp (found c) =
      set_next next timestamp (if c == max_sequence then c else c + 1)
  remember next timestamp exhausted = next
  remember next timestamp out_of_fuel = next

  -- One round for each candidate that is left.
  pub next_record_key : SequenceMap → ℤ → Search × SequenceMap
  next_record_key next timestamp =
      let candidate = first_candidate (next timestamp) in
      let result = search (2 ^ 32 - candidate) timestamp candidate in
      (result, remember next timestamp result)

-- `none` is the exception.
pub advance_after_collision : SequenceMap → ℤ → ℕ → Option SequenceMap
advance_after_collision next timestamp sequence =
    if sequence == max_sequence then none else some (set_next next timestamp (sequence + 1))
