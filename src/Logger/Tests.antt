-- ===== src/Logger/Tests.antt =====
-- A record, a file and a directory, and the theorems at them.
use libcppx.Base.{
  ℕ, zero, suc, ◌+◌, ◌-◌, ◌≤◌, ◌<◌, some, true, false, List, [], ◌∷◌, length, ◌≡◌, refl, arith,
}
use libcppx.Network.Receive.{slice}
use libcppx.Logger.{
  LogLevel, log_level_to_string, LogItem, LogBuffer, LineResult, write_log, log_format_buffer_size,
}
use libcppx.Logger.Line.{Rendered, line}
use libcppx.Logger.Written.{write_log-line, write_log-overruns}
use libcppx.Logger.Files.{
  LogFile, write_bytes, open_log_file, check_file_switch, size_of, is_counted, delete_oldest,
  total_size,
}
use libcppx.Logger.Rotation.{write_each, write_and_check, write_and_check-grows, bytes_of}
use libcppx.Logger.Cleanup.{Deleted, delete_oldest-Deleted, suffix-is_counted}

event_name : log_level_to_string LogLevel.event ≡ 32 ∷ 78 ∷ 85 ∷ 76 ∷ 76 ∷ []
unfolding log_level_to_string
event_name = refl

-- The format "a{}" with the parameter "b".
abbrev one_param : LogItem
one_param = record {
  module_name = 109 ∷ [];
  file_line = 102 ∷ [];
  function = 103 ∷ [];
  format = 97 ∷ 123 ∷ 125 ∷ [];
  params = (98 ∷ []) ∷ [];
}

one_param-Rendered : Rendered one_param.format one_param.params (97 ∷ 98 ∷ []) []
one_param-Rendered =
    Rendered.character 97 ((98 ∷ []) ∷ []) (123 ∷ 125 ∷ []) (98 ∷ []) [] refl
      (Rendered.placeholder (98 ∷ []) [] [] [] [] (Rendered.ends []))

write_log-line_example :
    (b : LogBuffer) × (write_log true (some (48 ∷ 32 ∷ [])) one_param (λ i. 0)
      ≡ LineResult.writes b)
    × (slice b.block 0 b.index ≡ line (48 ∷ 32 ∷ []) one_param (97 ∷ 98 ∷ []) [])
    × (b.index ≤ log_format_buffer_size one_param)
    × ((at : ℕ) → log_format_buffer_size one_param ≤ at → b.block at ≡ 0)
unfolding log_format_buffer_size
write_log-line_example =
    write_log-line (48 ∷ 32 ∷ []) one_param (λ i. 0) one_param-Rendered (omega arith) (omega arith)

abbrev blanks : ℕ → List ℕ
blanks zero = []
blanks (suc n) = 32 ∷ blanks n

-- A start of 62 characters, as with a process, a thread and an error of many digits.
abbrev no_params : LogItem
no_params = record one_param { format = []; params = [] }

write_log-overruns_example :
    (b : LogBuffer) × (write_log true (some (blanks 62)) no_params (λ i. 0) ≡ LineResult.writes b)
    × (b.index ≡ length (line (blanks 62) no_params [] []))
    × (log_format_buffer_size no_params < b.index)
    × (b.block (b.index - 1) ≡ 10)
write_log-overruns_example =
    write_log-overruns (blanks 62) no_params (λ i. 0) (Rendered.ends []) (omega arith) (omega arith)

-- A file of one megabyte at most.
abbrev fresh : LogFile
fresh = record {
  is_open = true;
  log_file_size = 0;
  log_file_max_size_mb = 1;
  active = some 0;
  renamed = [];
}

abbrev three_writes : List (ℕ × ℕ)
three_writes = (10, 1000000) ∷ (20, 100000) ∷ (30, 50) ∷ []

-- By the caller, the third write finds the file full and renames it; by the thread, none does.
by_caller :
    ((write_each three_writes fresh).renamed ≡ (30, 1100000) ∷ [])
    × ((write_and_check three_writes fresh).renamed ≡ [])
unfolding write_bytes open_log_file check_file_switch libcppx.ErrorCode.value
by_caller = (refl, refl)

write_and_check-grows_example :
    ((write_and_check three_writes fresh).renamed ≡ [])
    × (size_of (write_and_check three_writes fresh).active ≡ 0 + bytes_of three_writes)
write_and_check-grows_example =
    write_and_check-grows three_writes fresh (omega arith) refl (omega arith)

abbrev files : List (List ℕ × ℕ)
files = ((97 ∷ []), 5) ∷ ((98 ∷ []), 7) ∷ ((99 ∷ []), 2) ∷ []

oldest_deleted : delete_oldest 9 14 files ≡ ((98 ∷ []), 7) ∷ ((99 ∷ []), 2) ∷ []
unfolding delete_oldest
oldest_deleted = refl

delete_oldest-Deleted_example : Deleted 9 files (delete_oldest 9 (total_size files) files)
delete_oldest-Deleted_example = delete_oldest-Deleted 9 files (omega arith)

-- The name "a.log" with the suffix ".log".
suffix-is_counted_example :
    is_counted [] (97 ∷ []) (46 ∷ 108 ∷ 111 ∷ 103 ∷ []) (97 ∷ 46 ∷ 108 ∷ 111 ∷ 103 ∷ []) ≡ false
suffix-is_counted_example =
    suffix-is_counted [] (97 ∷ []) (46 ∷ 108 ∷ 111 ∷ []) 103 (97 ∷ []) (omega arith) (omega arith)
