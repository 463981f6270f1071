-- ===== src/Scheduler/Table.antt =====
-- The map of tasks: what its operations do to the other keys, and its order.
use libcppx.Base.{
  ℕ, zero, suc, ◌+◌, ◌^◌, ◌%◌, none, some, Bool-cases, true, false, ltb, leb, ◌==◌, if◌then◌else◌,
  [], ◌∷◌, length, ◌≡◌, ◌≢◌, ◌≤◌, ◌<◌, refl, sym, arith, inl, inr,
}
use native.Mathlib.Nat.{mod-eq_of_lt}
use libcppx.Scheduler.{TaskEx, Tasks, find, contains, assign, erase, free_time}

pub find-assign : (key : ℕ) (t : TaskEx) (tasks : Tasks) → find key (assign key t tasks) ≡ some t
find-assign key t [] = ground arith
find-assign key t ((k, u) ∷ rest) = ground (arith, find-assign key t rest)

pub find-assign_ne :
    (key : ℕ) (t : TaskEx) (tasks : Tasks) (j : ℕ)
    → j ≢ key
    → find j (assign key t tasks) ≡ find j tasks
find-assign_ne key t [] j ne = ground arith
find-assign_ne key t ((k, u) ∷ rest) j ne = ground (arith, find-assign_ne key t rest j ne)

pub find-erase_ne :
    (key : ℕ) (tasks : Tasks) (j : ℕ) → j ≢ key → find j (erase key tasks) ≡ find j tasks
find-erase_ne key [] j ne = refl
find-erase_ne key ((k, u) ∷ rest) j ne = ground (arith, find-erase_ne key rest j ne)

pub find-contains : (key : ℕ) (tasks : Tasks) → contains key tasks ≡ false → find key tasks ≡ none
find-contains key [] h = refl
find-contains key ((k, u) ∷ rest) h = ground (arith, find-contains key rest)

-- The keys are in order, from `low` on.
abbrev pub IsSorted : ℕ → Tasks → Type 0
IsSorted low [] = Unit
IsSorted low ((k, t) ∷ rest) = (low ≤ k) × IsSorted (k + 1) rest

pub IsSorted-le :
    (low high : ℕ) (tasks : Tasks) → low ≤ high → IsSorted high tasks → IsSorted low tasks
IsSorted-le low high [] le h = h
IsSorted-le low high ((k, t) ∷ rest) le h = (omega arith, h.1)

pub find-below :
    (low : ℕ) (tasks : Tasks) (j : ℕ) → IsSorted low tasks → j < low → find j tasks ≡ none
find-below low [] j h lt = refl
find-below low ((k, t) ∷ rest) j h lt = ground (arith, find-below (k + 1) rest j h.1)

pub assign-IsSorted :
    (key : ℕ) (new : TaskEx) (low : ℕ) (tasks : Tasks)
    → low ≤ key
    → IsSorted low tasks
    → IsSorted low (assign key new tasks)
assign-IsSorted key new low [] le h = (le, h)
assign-IsSorted key new low ((k, t) ∷ rest) le h = elim (Bool-cases (k == key)) [
  | inl same ↦ let e : k ≡ key = ground arith in rw (same, sym e) h
  | inr other ↦ rw other (elim (Bool-cases (ltb key k)) [
    | inl before ↦ rw before (le, (ground arith, h.1))
    | inr behind ↦ rw behind (h.0, assign-IsSorted key new (k + 1) rest (ground arith) h.1)
  ])
]

pub erase-IsSorted :
    (key low : ℕ) (tasks : Tasks) → IsSorted low tasks → IsSorted low (erase key tasks)
erase-IsSorted key low [] h = h
erase-IsSorted key low ((k, t) ∷ rest) h = elim (Bool-cases (k == key)) [
  | inl same ↦ rw same (IsSorted-le low (k + 1) rest (omega (arith, h.0)) h.1)
  | inr other ↦ rw other (h.0, erase-IsSorted key (k + 1) rest h.1)
]

pub find-erase :
    (key low : ℕ) (tasks : Tasks) → IsSorted low tasks → find key (erase key tasks) ≡ none
find-erase key low [] h = refl
find-erase key low ((k, t) ∷ rest) h =
    ground (arith, find-erase key (k + 1) rest h.1, find-below (k + 1) rest key h.1)

-- How many keys are not below a time.
abbrev pub count_from : ℕ → Tasks → ℕ
count_from key [] = 0
count_from key ((k, t) ∷ rest) = if leb key k then count_from key rest + 1 else count_from key rest

count_from_le : (key : ℕ) (tasks : Tasks) → count_from key tasks ≤ length tasks
count_from_le key [] = omega arith
count_from_le key ((k, t) ∷ rest) = ground (arith, count_from_le key rest)

count_from_mono : (key : ℕ) (tasks : Tasks) → count_from (key + 1) tasks ≤ count_from key tasks
count_from_mono key [] = omega arith
count_from_mono key ((k, t) ∷ rest) = ground (arith, count_from_mono key rest)

count_from_step :
    (key : ℕ) (tasks : Tasks)
    → contains key tasks ≡ true
    → count_from (key + 1) tasks < count_from key tasks
count_from_step key [] h = ground arith
count_from_step key ((k, t) ∷ rest) h =
    ground (arith, count_from_step key rest, count_from_mono key rest)

contains_pos : (key : ℕ) (tasks : Tasks) → contains key tasks ≡ true → 0 < count_from key tasks
contains_pos key tasks h = omega (arith, count_from_step key tasks h)

free_from :
    (rounds key : ℕ) (tasks : Tasks)
    → count_from key tasks ≤ rounds
    → key + rounds < 2 ^ 64
    → let found = free_time rounds key tasks in
      (contains found tasks ≡ false) × (key ≤ found) × (found ≤ key + rounds)
unfolding free_time
free_from zero key tasks few small = elim (Bool-cases (contains key tasks)) [
  | inl taken ↦ absurd (omega (arith, contains_pos key tasks taken))
  | inr free ↦ (free, omega arith, omega arith)
]
free_from (suc rounds) key tasks few small =
    let sum : (key + 1) % 2 ^ 64 ≡ key + 1 = mod-eq_of_lt (omega arith) in
    elim (Bool-cases (contains key tasks)) [
      | inl taken ↦
          let rest =
            free_from rounds (key + 1) tasks (omega (arith, count_from_step key tasks taken))
              (omega arith) in
          rw (taken, sum) (rest.0, omega arith, omega arith)
      | inr free ↦ rw free (free, omega arith, omega arith)
    ]

-- The loop that looks for a free time ends after at most as many rounds as there are tasks, at a
-- time that no task has, not before the wanted one and at most as many nanoseconds behind it as
-- there are tasks. No time reaches `2 ^ 64`.
pub free_time_lem :
    (key : ℕ) (tasks : Tasks)
    → key + length tasks < 2 ^ 64
    → let found = free_time (length tasks) key tasks in
      (contains found tasks ≡ false) × (key ≤ found) × (found ≤ key + length tasks)
free_time_lem key tasks small = free_from (length tasks) key tasks (count_from_le key tasks) small
