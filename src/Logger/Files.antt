-- ===== src/Logger/Files.antt =====
-- The logger's files: WriteLog of bytes, OpenLogFile and CheckFileSwitch of
-- base/sources/logger/logger_impl.cpp. A name is a list of characters; the new name of a file is the
-- second at which it is renamed.
use libcppx.Base.{
  ℕ, suc, ◌+◌, ◌-◌, ◌*◌, ◌^◌, ◌%◌, Option, none, some, Bool, true, false, not, ◌&&◌, ◌||◌, ltb, leb,
  ◌==◌, if◌then◌else◌, List, [], ◌∷◌, length,
}
use libcppx.ErrorCode.{ErrorCode, value}

-- CLoggerImpl: `m_pLogFile` is not null, and the members about its size; and what lies on the
-- disk: the size of the file `m_szLogFileName`, where there is one, and the renamed files, each with
-- its size.
pub record LogFile : Type 0 where
  pub is_open : Bool
  pub log_file_size : ℕ
  pub log_file_max_size_mb : ℕ
  pub active : Option ℕ
  pub renamed : List (ℕ × ℕ)

abbrev pub max_bytes : LogFile → ℕ
max_bytes f = (f.log_file_max_size_mb * 1024 * 1024) % 2 ^ 64

-- `rename`, which takes the place of a file of that name.
abbrev pub place : ℕ → ℕ → List (ℕ × ℕ) → List (ℕ × ℕ)
place now n [] = (now, n) ∷ []
place now n ((k, m) ∷ fs) =
    let rest = place now n fs in if k == now then (k, n) ∷ fs else (k, m) ∷ rest

abbrev pub rename_active : ℕ → LogFile → Option ℕ → LogFile
rename_active now f none = f
rename_active now f (some n) = record f { active = none; renamed = place now n f.renamed }

abbrev pub size_of : Option ℕ → ℕ
size_of none = 0
size_of (some n) = n

-- `fopen` for appending, and whether it succeeds.
abbrev pub open_active : Bool → LogFile → ErrorCode × LogFile
open_active false f = (ErrorCode.system_error, f)
open_active true f =
    (ErrorCode.success, record f { is_open = true; active = some (size_of f.active) })

-- OpenLogFile, at a second; `opens` says whether `fopen` succeeds.
unfoldable pub open_log_file : Bool → ℕ → LogFile → ErrorCode × LogFile
open_log_file opens now f =
    if f.is_open
    then open_active opens
        (rename_active now (record f { is_open = false; log_file_size = 0 }) f.active)
    else open_active opens f

-- `fwrite`: the count of the bytes that are written, none for an error.
abbrev pub append_bytes : Option ℕ → LogFile → ErrorCode × LogFile
append_bytes none f = (ErrorCode.system_error, f)
append_bytes (some n) f = (
  ErrorCode.success,
  record f { log_file_size = (f.log_file_size + n) % 2 ^ 64; active = some (size_of f.active + n) },
)

abbrev pub append_opened : Option ℕ → ErrorCode × LogFile → ErrorCode × LogFile
append_opened written (code, f) =
    if value code == 0 then append_bytes written f else (ErrorCode.system_error, f)

-- WriteLog of bytes
unfoldable pub write_bytes : Bool → ℕ → Option ℕ → LogFile → ErrorCode × LogFile
write_bytes opens now written f =
    if not f.is_open || leb (max_bytes f) f.log_file_size
    then append_opened written (open_log_file opens now f)
    else append_bytes written f

-- CheckFileSwitch, its switch to a new file.
unfoldable pub check_file_switch : Bool → ℕ → LogFile → LogFile
check_file_switch opens now f =
    if leb (max_bytes f) f.log_file_size
    then (open_log_file opens now (record f { is_open = false; log_file_size = 0 })).1
    else f

-- std::string: `find_first_of` and `find_last_of`, with npos where there is none.
abbrev pub npos : ℕ
npos = 2 ^ 64 - 1

abbrev pub among : ℕ → List ℕ → Bool
among c [] = false
among c (d ∷ cs) = if c == d then true else among c cs

abbrev pub first_of : List ℕ → List ℕ → Option ℕ
first_of cs [] = none
first_of cs (x ∷ xs) =
    if among x cs then some 0 else elim (first_of cs xs) [ none ↦ none | some i ↦ some (suc i) ]

abbrev pub later : Bool → Option ℕ → Option ℕ
later here (some i) = some (suc i)
later true none = some 0
later false none = none

abbrev pub last_of : List ℕ → List ℕ → Option ℕ
last_of cs [] = none
last_of cs (x ∷ xs) = later (among x cs) (last_of cs xs)

abbrev pub position : Option ℕ → ℕ
position none = npos
position (some i) = i

abbrev pub same : List ℕ → List ℕ → Bool
same [] [] = true
same [] (y ∷ ys) = false
same (x ∷ xs) [] = false
same (x ∷ xs) (y ∷ ys) = (x == y) && same xs ys

-- CheckFileSwitch: whether a file of the directory is counted. The subtraction is of `size_t`.
unfoldable pub is_counted : (log_file_name prefix suffix : List ℕ) → List ℕ → Bool
is_counted log_file_name prefix suffix name =
    not (same name log_file_name)
    && (position (first_of prefix name) == 0)
    && (position (last_of suffix name) == (length name + (2 ^ 64 - length suffix)) % 2 ^ 64)

-- CheckFileSwitch: the loop that deletes the first files of the map, each with its size, while the
-- total is above the limit. With the files that are left.
unfoldable pub delete_oldest : ℕ → ℕ → List (List ℕ × ℕ) → List (List ℕ × ℕ)
delete_oldest limit total [] = []
delete_oldest limit total ((name, n) ∷ files) =
    let rest = delete_oldest limit ((total + (2 ^ 64 - n)) % 2 ^ 64) files in
    if ltb limit total then rest else (name, n) ∷ files

abbrev pub total_size : List (List ℕ × ℕ) → ℕ
total_size [] = 0
total_size ((name, n) ∷ files) = n + total_size files
