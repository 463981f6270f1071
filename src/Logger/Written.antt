-- ===== src/Logger/Written.antt =====
-- WriteLog(LogItem) of base/sources/logger/logger_impl.cpp writes the line, and how long it is.
use libcppx.Base.{
  ℕ, ◌+◌, ◌-◌, ◌*◌, ◌^◌, ◌%◌, ◌≤◌, ◌<◌, some, true, false, List, [], ◌∷◌, ◌++◌, length,
  length-append, append_assoc, append-nil, ◌≡◌, refl, sym, subst, ◌∙◌, arith,
}
use libcppx.Network.Receive.{Bytes, slice}
use libcppx.Logger.{
  LogItem, LineResult, lengths, log_format_buffer_size, LogBuffer, print, put, fill, fill_rest,
  finish, filled, write_log,
}
use libcppx.Logger.Line.{
  at_placeholder, Rendered, spaced, ending, line, Holds, Within, print-Holds, put-Holds,
  print-Within, put-Within,
}

length-Rendered :
    {format : List ℕ} {params : List (List ℕ)} {text : List ℕ} {left : List (List ℕ)}
    → Rendered format params text left
    → length text + 2 * length params + lengths left
      ≡ length format + lengths params + 2 * length left
length-Rendered (Rendered.ends params) = omega arith
length-Rendered (Rendered.placeholder p params format text left r) =
    omega (arith, length-Rendered r, length-append p text)
length-Rendered (Rendered.character c params format text left h r) =
    omega (arith, length-Rendered r)

length-spaced : (ps : List (List ℕ)) → length (spaced ps) ≡ length ps + lengths ps
length-spaced [] = omega arith
length-spaced (p ∷ ps) = omega (arith, length-spaced ps, length-append (32 ∷ p) (spaced ps))

length-ending : (i : LogItem) → length (ending i) ≡ length i.file_line + length i.function + 3
length-ending i = omega (
  arith,
  length-append (i.file_line ++ (44 ∷ i.function)) (41 ∷ []),
  length-append i.file_line (44 ∷ i.function),
)

fill-character :
    (size c : ℕ) (format : List ℕ) (params : List (List ℕ)) (b : LogBuffer)
    → at_placeholder (c ∷ format) ≡ false
    → fill size (c ∷ format) params b ≡ fill size format params (put c b)
unfolding fill
fill-character size c [] params b h = refl
fill-character size c (d ∷ format) params b h = rw (h, fill) refl

-- What the calls that print keep, as long as the text is below a limit.
module _ (size limit : ℕ) (H : List ℕ → LogBuffer → Type 0)
    (prints : (text more : List ℕ) (b : LogBuffer)
      → H text b
      → length text + length more < limit
      → H (text ++ more) (print size more b))
    (puts : (c : ℕ) (text : List ℕ) (b : LogBuffer)
      → H text b
      → length text + 1 < limit
      → H (text ++ (c ∷ [])) (put c b)) where
  fill-H :
      {format : List ℕ} {params : List (List ℕ)} {text : List ℕ} {left : List (List ℕ)}
      → Rendered format params text left
      → (before : List ℕ) (b : LogBuffer) → H before b
      → length before + length text < limit
      → (b' : LogBuffer) × (fill size format params b ≡ some (b', left)) × H (before ++ text) b'
  unfolding fill
  fill-H (Rendered.ends params) before b h fits =
      (b, refl, subst (λ t. H t b) (sym (append-nil before)) h)
  fill-H (Rendered.placeholder p params format text left r) before b h fits =
      let sizes = length-append p text in
      let sizes' = length-append before p in
      let (b', done, h') =
        fill-H r (before ++ p) (print size p b) (prints before p b h (omega arith)) (omega arith) in
      (b', done, subst (λ t. H t b') (append_assoc before p text) h')
  fill-H (Rendered.character c params format text left other r) before b h fits =
      let sizes = length-append before (c ∷ []) in
      let (b', done, h') =
        fill-H r (before ++ (c ∷ [])) (put c b) (puts c before b h (omega arith)) (omega arith) in
      (
        b',
        fill-character size c format params b other ∙ done,
        subst (λ t. H t b') (append_assoc before (c ∷ []) text) h',
      )

  fill_rest-H :
      (left : List (List ℕ)) (before : List ℕ) (b : LogBuffer)
      → H before b
      → length before + length (spaced left) < limit
      → H (before ++ spaced left) (fill_rest size left b)
  unfolding fill_rest
  fill_rest-H [] before b h fits = subst (λ t. H t b) (sym (append-nil before)) h
  fill_rest-H (p ∷ ps) before b h fits =
      let sizes = length-append before (32 ∷ p) in
      let sizes' = length-append (32 ∷ p) (spaced ps) in
      subst (λ t. H t (fill_rest size ps (print size (32 ∷ p) b)))
        (append_assoc before (32 ∷ p) (spaced ps))
        (fill_rest-H ps (before ++ (32 ∷ p)) (print size (32 ∷ p) b)
          (prints before (32 ∷ p) b h (omega arith)) (omega arith))

  -- All but the end of the line.
  printed-H :
      (start : List ℕ) (i : LogItem) (block : Bytes) {text : List ℕ} {left : List (List ℕ)}
      → Rendered i.format i.params text left
      → H [] (record { block = block; index = 0 })
      → length (((start ++ text) ++ spaced left) ++ ending i) < limit
      → (b : LogBuffer) × (filled i size
            (fill size i.format i.params (print size start (record { block = block; index = 0 })))
          ≡ LineResult.writes (put 10 b))
        × H (((start ++ text) ++ spaced left) ++ ending i) b
  unfolding finish
  printed-H start i block {text} {left} r h fits =
      let sizes = length-append start text in
      let sizes' = length-append (start ++ text) (spaced left) in
      let sizes'' = length-append ((start ++ text) ++ spaced left) (ending i) in
      let b0 : LogBuffer = record { block = block; index = 0 } in
      let (b1, done, h1) =
        fill-H r start (print size start b0) (prints [] start b0 h (omega arith)) (omega arith) in
      let h2 = fill_rest-H left (start ++ text) b1 h1 (omega arith) in
      (
        print size (ending i) (fill_rest size left b1),
        rw done refl,
        prints ((start ++ text) ++ spaced left) (ending i) (fill_rest size left b1) h2
            (omega arith),
      )

-- The length of the line, against the block that is asked for.
length-line :
    (start : List ℕ) (i : LogItem) {text : List ℕ} {left : List (List ℕ)}
    → Rendered i.format i.params text left
    → length (line start i text left) + 2 * length i.params + 60 + length i.module_name
      ≡ length start + 3 * length left + log_format_buffer_size i
unfolding log_format_buffer_size
length-line start i {text} {left} r = omega (
  arith,
  length-Rendered r,
  length-spaced left,
  length-ending i,
  length-append start text,
  length-append (start ++ text) (spaced left),
  length-append ((start ++ text) ++ spaced left) (ending i),
  length-append (((start ++ text) ++ spaced left) ++ ending i) (10 ∷ []),
)

-- WriteLog, with memory for its block and a start that is printed, writes the line that the format
-- and the parameters make, each placeholder replaced by the next parameter and the ones that are left
-- behind it, and changes no byte behind its block, where the format has no more placeholders than
-- there are parameters and the start is so short, and so few parameters have no placeholder, that the
-- 64 bytes are enough.
pub write_log-line :
    (start : List ℕ) (i : LogItem) (block : Bytes) {text : List ℕ} {left : List (List ℕ)}
    → Rendered i.format i.params text left
    → length start + 3 * length left + 4 ≤ 64 + length i.module_name + 2 * length i.params
    → log_format_buffer_size i < 2 ^ 32
    → (b : LogBuffer) × (write_log true (some start) i block ≡ LineResult.writes b)
      × (slice b.block 0 b.index ≡ line start i text left)
      × (b.index ≤ log_format_buffer_size i)
      × ((at : ℕ) → log_format_buffer_size i ≤ at → b.block at ≡ block at)
unfolding write_log
write_log-line start i block {text} {left} r short small =
    let size = log_format_buffer_size i in
    let all = length-line start i r in
    let without = ((start ++ text) ++ spaced left) ++ ending i in
    let last = length-append without (10 ∷ []) in
    let (b, done, (h, within)) =
      printed-H size size (λ t b. Holds t b × Within size block b)
        (λ t m b (h, within) fits. (
          print-Holds size t m b h fits small,
          print-Within size block m b (omega (arith, h.index)) small within,
        ))
        (λ c t b (h, within) fits. (
          put-Holds c t b h (omega arith),
          put-Within size c block b (omega (arith, h.index)) within,
        ))
        start i block r (record { index = refl; bytes = refl }, λ at behind. refl) (omega arith) in
    let written = put-Holds 10 without b h (omega arith) in
    (
      put 10 b,
      done,
      written.bytes,
      omega (arith, written.index),
      put-Within size 10 block b (omega (arith, h.index)) within,
    )

print-index :
    (size : ℕ) (t m : List ℕ) (b : LogBuffer)
    → b.index ≡ length t
    → length t + length m < 2 ^ 32
    → (print size m b).index ≡ length (t ++ m)
unfolding print
print-index size t m b h fits = omega (arith, length-append t m)

put-index :
    (c : ℕ) (t : List ℕ) (b : LogBuffer)
    → b.index ≡ length t
    → length t + 1 < 2 ^ 32
    → (put c b).index ≡ length (t ++ (c ∷ []))
unfolding put
put-index c t b h fits = omega (arith, length-append t (c ∷ []))

put-newline : (b : LogBuffer) → b.index + 1 < 2 ^ 32 → (put 10 b).block ((put 10 b).index - 1) ≡ 10
unfolding put
put-newline b small =
    let same : (b.index + 1) % 2 ^ 32 - 1 ≡ b.index = omega arith in rw same (ground arith)

-- Where the start is longer, or more parameters have no placeholder, the text does not fit: WriteLog
-- writes the end of the line behind its block, and counts more bytes than the block has for the file.
pub write_log-overruns :
    (start : List ℕ) (i : LogItem) (block : Bytes) {text : List ℕ} {left : List (List ℕ)}
    → Rendered i.format i.params text left
    → 64 + length i.module_name + 2 * length i.params < length start + 3 * length left + 4
    → length (line start i text left) < 2 ^ 32
    → (b : LogBuffer) × (write_log true (some start) i block ≡ LineResult.writes b)
      × (b.index ≡ length (line start i text left))
      × (log_format_buffer_size i < b.index)
      × (b.block (b.index - 1) ≡ 10)
unfolding write_log
write_log-overruns start i block {text} {left} r long small =
    let size = log_format_buffer_size i in
    let all = length-line start i r in
    let without = ((start ++ text) ++ spaced left) ++ ending i in
    let last = length-append without (10 ∷ []) in
    let (b, done, h) =
      printed-H size (2 ^ 32) (λ t b. b.index ≡ length t)
        (λ t m b h fits. print-index size t m b h fits) (λ c t b h fits. put-index c t b h fits)
        start i block r refl (omega arith) in
    let index = put-index 10 without b h (omega arith) in
    (put 10 b, done, index, omega (arith, index), put-newline b (omega (arith, h)))
