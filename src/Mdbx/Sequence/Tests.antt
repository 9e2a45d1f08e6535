-- ===== src/Mdbx/Sequence/Tests.antt =====
-- Concrete searches.
use log_it_cpp.Base.{false, some, [], ◌∷◌, Bool, ltb, arith}
use log_it_cpp.Base.Ints.{pos}
use log_it_cpp.Record.{Bytes}
use log_it_cpp.Mdbx.Sequence.{SequenceMap, first_candidate, next_record_key}
use log_it_cpp.Mdbx.Sequence.Fresh.{FirstFree, next_record_key-FirstFree}

-- The table holds the keys whose last byte is below 3.
abbrev last_below_three : Bytes → Bool
last_below_three [] = false
last_below_three (b ∷ []) = ltb b 3
last_below_three (b ∷ c ∷ key) = last_below_three (c ∷ key)

abbrev from_one : SequenceMap
from_one t = some 1

next_record_key-FirstFree_example :
    FirstFree last_below_three
      (pos 7)
      (first_candidate (from_one (pos 7)))
      (next_record_key last_below_three from_one (pos 7)).0
next_record_key-FirstFree_example =
    next_record_key-FirstFree last_below_three from_one (pos 7) (omega arith)
