-- ===== src/Logger.antt =====
-- The logger: base/sources/logger/logger_impl.cpp, the text of a record. Texts are lists of
-- characters without the zero at their end. The files are Logger/Files.
pub mod Line
pub mod Written
pub mod Files
pub mod Queue
pub mod Setup
pub mod Rotation
pub mod Cleanup
pub mod Tests
use libcppx.Base.{
  ℕ, zero, suc, ◌+◌, ◌-◌, ◌/◌, ◌%◌, ◌^◌, Option, none, some, Bool, true, false, ◌&&◌, ◌==◌,
  if◌then◌else◌, ltb, List, [], ◌∷◌, ◌++◌, length, take,
}
use libcppx.ErrorCode.{ErrorCode}
use libcppx.Network.Receive.{Bytes, store}

-- ILogger::LogLevel
pub data LogLevel : Type 0 where
  trace debug info warn error fatal event : LogLevel

-- LogLevelToString: the names, as characters. The test excludes kEvent, whose name is the last one.
unfoldable pub log_level_to_string : LogLevel → List ℕ
log_level_to_string LogLevel.trace = 84 ∷ 82 ∷ 65 ∷ 67 ∷ 69 ∷ []
log_level_to_string LogLevel.debug = 68 ∷ 69 ∷ 66 ∷ 85 ∷ 71 ∷ []
log_level_to_string LogLevel.info = 32 ∷ 73 ∷ 78 ∷ 70 ∷ 79 ∷ []
log_level_to_string LogLevel.warn = 32 ∷ 87 ∷ 65 ∷ 82 ∷ 78 ∷ []
log_level_to_string LogLevel.error = 69 ∷ 82 ∷ 82 ∷ 79 ∷ 82 ∷ []
log_level_to_string LogLevel.fatal = 70 ∷ 65 ∷ 84 ∷ 65 ∷ 76 ∷ []
log_level_to_string LogLevel.event = 32 ∷ 78 ∷ 85 ∷ 76 ∷ 76 ∷ []

-- CLoggerImpl::LogItem, less the fields that only the text's start shows.
pub record LogItem : Type 0 where
  pub module_name : List ℕ
  pub file_line : List ℕ
  pub function : List ℕ
  pub format : List ℕ
  pub params : List (List ℕ)

abbrev pub lengths : List (List ℕ) → ℕ
lengths [] = 0
lengths (p ∷ ps) = length p + lengths ps

-- WriteLog: `uLogFormatBufferSize`
unfoldable pub log_format_buffer_size : LogItem → ℕ
log_format_buffer_size i =
    64
    + length i.module_name
    + length i.file_line
    + length i.function
    + length i.format
    + lengths i.params

-- The block that WriteLog writes, and `uLogBufferIndex`.
pub record LogBuffer : Type 0 where
  pub block : Bytes
  pub index : ℕ

-- `snprintf` at an offset of a block, with room for some bytes.
abbrev pub snprintf : Bytes → ℕ → ℕ → List ℕ → Bytes
snprintf block at zero text = block
snprintf block at (suc n) text = store block at (take n text ++ (0 ∷ []))

-- A call of `snprintf` of WriteLog. The room is computed in `uint64_t`, the index is `uint32_t`.
unfoldable pub print : ℕ → List ℕ → LogBuffer → LogBuffer
print size text b = record {
  block = snprintf b.block b.index ((size + (2 ^ 64 - b.index)) % 2 ^ 64) text;
  index = (b.index + length text) % 2 ^ 32;
}

-- A character that WriteLog copies.
unfoldable pub put : ℕ → LogBuffer → LogBuffer
put c b = record { block = store b.block b.index (c ∷ []); index = (b.index + 1) % 2 ^ 32 }

-- The loop over the format, with the parameters that are left; none where it reads a parameter behind
-- the last one.
unfoldable pub fill : ℕ → List ℕ → List (List ℕ) → LogBuffer → Option (LogBuffer × List (List ℕ))
fill size [] params b = some (b, params)
fill size (c ∷ []) params b = some (put c b, params)
fill size (c ∷ (d ∷ format)) params b = elim ((c == 123) && (d == 125)) [
  | true ↦ elim params [ [] ↦ none | p ∷ ps ↦ fill size format ps (print size p b) ]
  | false ↦ fill size (d ∷ format) params (put c b)
]

-- The loop over the parameters that are left.
unfoldable pub fill_rest : ℕ → List (List ℕ) → LogBuffer → LogBuffer
fill_rest size [] b = b
fill_rest size (p ∷ ps) b = fill_rest size ps (print size (32 ∷ p) b)

-- The end of the text: the place in the code in brackets, and the end of the line.
unfoldable pub finish : LogItem → ℕ → LogBuffer → LogBuffer
finish i size b = put 10 (print size ((40 ∷ i.file_line) ++ (44 ∷ i.function) ++ (41 ∷ [])) b)

-- What WriteLog(LogItem) comes to before it writes into the file: a return with an error code, which
-- is the last error then; a read of a parameter behind the last one; or the text.
pub data LineResult : Type 0 where
  refused : ErrorCode → LineResult
  reads_behind : LineResult
  writes : LogBuffer → LineResult

abbrev pub filled : LogItem → ℕ → Option (LogBuffer × List (List ℕ)) → LineResult
filled i size none = LineResult.reads_behind
filled i size (some (b, params)) = LineResult.writes (finish i size (fill_rest size params b))

-- WriteLog(LogItem), up to the write of the text into the file: `memory` says whether the allocator
-- gives the block, and `block` is what it holds; `start` is what the first call of `snprintf` prints,
-- with the time, the numbers, the level and the module, none where its result is negative. The later
-- calls print texts as they are, and their results are not negative.
unfoldable pub write_log :
    (memory : Bool) → (start : Option (List ℕ)) → LogItem → Bytes → LineResult
write_log false start i block = LineResult.refused ErrorCode.out_of_memory
write_log true none i block = LineResult.refused ErrorCode.system_error
write_log true (some start) i block =
    let size = log_format_buffer_size i in
    filled i size
      (fill size i.format i.params (print size start (record { block = block; index = 0 })))
