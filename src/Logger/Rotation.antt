-- ===== src/Logger/Rotation.antt =====
-- How large the files become, and which of them are renamed and deleted:
-- base/sources/logger/logger_impl.cpp.
use libcppx.Base.{
  ℕ, ◌+◌, ◌^◌, ◌%◌, ◌≤◌, ◌<◌, some, Bool-cases, true, false, leb, List, [], ◌∷◌, ◌≡◌, inl, inr,
  refl, ap, ◌∙◌, arith,
}
use libcppx.ErrorCode.{value}
use libcppx.Logger.Files.{
  LogFile, max_bytes, size_of, open_log_file, write_bytes, check_file_switch, same,
}

-- A file that is open, with its size as the counter has it.
pub record IsCurrent (f : LogFile) : Type 0 where
  pub is_open : f.is_open ≡ true
  pub active : f.active ≡ some f.log_file_size

-- Every renamed file is smaller than a bound.
abbrev pub AllBelow : ℕ → List (ℕ × ℕ) → Type 0
AllBelow bound [] = Unit
AllBelow bound ((now, n) ∷ fs) = (n < bound) × AllBelow bound fs

-- Writes by the caller, each at a second and of some bytes, where the file can be opened.
abbrev pub write_each : List (ℕ × ℕ) → LogFile → LogFile
write_each [] f = f
write_each ((now, n) ∷ ws) f = write_each ws (write_bytes true now (some n) f).1

abbrev pub AllAtMost : ℕ → List (ℕ × ℕ) → Type 0
AllAtMost m [] = Unit
AllAtMost m ((now, n) ∷ ws) = (n ≤ m) × AllAtMost m ws

-- A logger's file while the caller writes.
pub record Rotates (m : ℕ) (f : LogFile) : Type 0 where
  pub current : IsCurrent f
  pub size : f.log_file_size < max_bytes f + m
  pub small : AllBelow (max_bytes f + m) f.renamed

-- The rounds of the logger's thread: a write, and the check that follows it.
abbrev pub write_and_check : List (ℕ × ℕ) → LogFile → LogFile
write_and_check [] f = f
write_and_check ((now, n) ∷ ws) f =
    write_and_check ws (check_file_switch true now (write_bytes true now (some n) f).1)

abbrev pub bytes_of : List (ℕ × ℕ) → ℕ
bytes_of [] = 0
bytes_of ((now, n) ∷ ws) = n + bytes_of ws

-- A round of the thread where the file has room left.
round-active :
    (now n : ℕ) (f : LogFile)
    → 0 < max_bytes f
    → f.is_open ≡ true
    → f.log_file_size < max_bytes f
    → let g = check_file_switch true now (write_bytes true now (some n) f).1 in
      (g.is_open ≡ true)
      × (g.log_file_size < max_bytes g)
      × (max_bytes g ≡ max_bytes f)
      × (g.renamed ≡ f.renamed)
      × (g.active ≡ some (size_of f.active + n))
unfolding write_bytes check_file_switch open_log_file value
round-active now n f some_max is_open room =
    let free : leb (max_bytes f) f.log_file_size ≡ false = ground arith in
    rw (is_open, free)
      (elim (Bool-cases (leb (max_bytes f) ((f.log_file_size + n) % 2 ^ 64))) [
        | inl full ↦ rw full (refl, ground arith, refl, refl, refl)
        | inr more ↦ rw more (refl, ground arith, refl, refl, refl)
      ])

-- What the logger's thread does to the files: in any number of rounds, each a write and then the
-- check, where the file can be opened, no file is renamed, and the one file grows by all that is
-- written, whatever the configured size is, above 0: the check closes the file before OpenLogFile looks
-- whether there is a file to rename.
pub write_and_check-grows :
    (ws : List (ℕ × ℕ)) (f : LogFile)
    → 0 < max_bytes f
    → f.is_open ≡ true
    → f.log_file_size < max_bytes f
    → ((write_and_check ws f).renamed ≡ f.renamed)
      × (size_of (write_and_check ws f).active ≡ size_of f.active + bytes_of ws)
write_and_check-grows [] f some_max is_open room = (refl, omega arith)
write_and_check-grows ((now, n) ∷ ws) f some_max is_open room =
    let g = check_file_switch true now (write_bytes true now (some n) f).1 in
    let (is_open', room', same, renamed, active) = round-active now n f some_max is_open room in
    let (renamed', active') = write_and_check-grows ws g (omega (arith, same)) is_open' room' in
    (renamed' ∙ renamed, omega (arith, active', ap size_of active))
