-- ===== src/Memory/Alloc.antt =====
-- `BitmapMemoryManager::Allocate` (Kernel/memory_manager.cpp) is a first-fit search.
use mikanos_copy.Common.{
  ℕ, zero, suc, ◌+◌, ◌-◌, ◌≤◌, ◌<◌, ◌≡◌, sym, ap, ◌∙◌, true, false, Option, none, some, inl, inr,
  add64, leb, if◌then◌else◌, arith, Bool-cases, ℕ_discrete, dec_lt,
}
use mathlib.Core.Bool.{false≢true}
use mikanos_copy.Error.{Error, WithError}
use mikanos_copy.Memory.{
  Manager, null_frame, get_bit, mark_allocated, free, Scan, past_end, stopped, complete, scan,
  allocate_from, allocate,
}
use mikanos_copy.Memory.Bitmap.{
  IsValid, frames, among, get_bit-mark_allocated, free_lem, mark_allocated-IsValid,
  frames-mark_allocated,
}

-- The `n` frames from `start` on are free and below the end of the range.
pub record FreeRun (m : Manager) (start n : ℕ) : Type 0 where
  pub inside : start + n ≤ m.range_end
  pub clear : (j : ℕ) → j < n → get_bit m (start + j) ≡ false

-- What a scan from round `i` says of the frames from `start + i` on.
abbrev Scanned : Manager → ℕ → ℕ → ℕ → Scan → Type 0
Scanned m start i n past_end = m.range_end < start + n
Scanned m start i n (stopped k) =
    (k < n) × (start + k < m.range_end) × (get_bit m (start + k) ≡ true)
Scanned m start i n complete =
    (start + n ≤ m.range_end) × ((j : ℕ) → i ≤ j → j < n → get_bit m (start + j) ≡ false)

Scanned-back :
    (m : Manager) (start i n : ℕ) (s : Scan)
    → get_bit m (start + i) ≡ false
    → Scanned m start (i + 1) n s
    → Scanned m start i n s
Scanned-back m start i n past_end e h = h
Scanned-back m start i n (stopped k) e h = h
Scanned-back m start i n complete e h = (
  h.0,
  λ j a b. elim (ℕ_discrete i j) [ yes same ↦ rw (← same) e | no ne ↦ h.1 j (omega arith) b ],
)

scan-Scanned :
    (m : Manager) (start rounds i n : ℕ)
    → IsValid m
    → start + i ≤ m.range_end
    → i + rounds ≡ n
    → Scanned m start i n (scan m start i rounds)
unfolding scan
scan-Scanned m start zero i n v h e = (omega arith, λ j a b. absurd (omega arith))
scan-Scanned m start (suc rounds) i n v h e =
    rw here (elim (Bool-cases (leb m.range_end (start + i))) [
      | inl past ↦ rw past (ground arith)
      | inr more ↦ rw more (elim (Bool-cases (get_bit m (start + i))) [
        | inl used ↦ rw used (omega arith, ground arith, used)
        | inr unused ↦ rw unused (
            Scanned-back m start i n (scan m start (i + 1) rounds) unused
              (scan-Scanned m start rounds (i + 1) n v (ground arith) (omega arith)))
      ])
    ])
  where
    here : add64 start i ≡ start + i
    here = omega (arith, v)

-- What `Allocate` may return: the first free run and its allocation, or a refusal that changes
-- nothing, when there is no free run. It always returns.
pub data Outcome (m : Manager) (n : ℕ) : Option (WithError ℕ × Manager) → Type 0 where
  found :
      (start : ℕ)
      → m.range_begin ≤ start
      → FreeRun m start n
      → ((other : ℕ) → m.range_begin ≤ other → FreeRun m other n → start ≤ other)
      → Outcome m n
          (some (record { value = start; error = Error.success }, mark_allocated m start n))
  refused :
      ((other : ℕ) → m.range_begin ≤ other → ¬ FreeRun m other n)
      → Outcome m n (some (record { value = null_frame; error = Error.no_enough_memory }, m))

-- No free run starts before the place that the search has reached.
abbrev NoneBefore : Manager → ℕ → ℕ → Type 0
NoneBefore m n start = (other : ℕ) → m.range_begin ≤ other → FreeRun m other n → start ≤ other

-- A blocked frame lies in every run that starts between the start of the scan and it.
skip_blocked :
    (m : Manager) (n start k : ℕ)
    → k < n
    → get_bit m (start + k) ≡ true
    → NoneBefore m n start
    → NoneBefore m n (start + (k + 1))
skip_blocked m n start k h used none_before other b run = elim (dec_lt other (start + (k + 1))) [
  | no far ↦ omega arith
  | yes near ↦ absurd (
      false≢true (
        sym (
          sym used
          ∙ ap (get_bit m) (omega (arith, none_before other b run))
          ∙ run.clear (start + k - other) (omega (arith, none_before other b run)))))
]

allocate_from-Outcome :
    (fuel : ℕ) (m : Manager) (start n : ℕ)
    → IsValid m
    → m.range_begin ≤ start
    → start ≤ m.range_end
    → m.range_end - start < fuel
    → NoneBefore m n start
    → Outcome m n (allocate_from fuel m start n)
unfolding allocate_from
allocate_from-Outcome zero m start n v b e f none_before = absurd (omega arith)
allocate_from-Outcome (suc fuel) m start n v b e f none_before =
    go (scan m start 0 n) (scan-Scanned m start n 0 n v (omega arith) (omega arith))
      (λ next. allocate_from-Outcome fuel m next n v)
  where
    go :
        (s : Scan)
        → Scanned m start 0 n s
        → ((next : ℕ)
            → m.range_begin ≤ next
            → next ≤ m.range_end
            → m.range_end - next < fuel
            → NoneBefore m n next
            → Outcome m n (allocate_from fuel m next n))
        → Outcome m n (elim s [
          | past_end ↦ some (record { value = null_frame; error = Error.no_enough_memory }, m)
          | stopped i ↦ allocate_from fuel m (add64 start (i + 1)) n
          | complete ↦
              some (record { value = start; error = Error.success }, mark_allocated m start n)
        ])
    go past_end h resume =
        refused (λ other low run. omega (arith, none_before other low run, run.inside))
    go (stopped i) h resume =
        let here : add64 start (i + 1) ≡ start + (i + 1) = omega (arith, h, v) in
        rw here (
          resume (start + (i + 1)) (omega arith) (omega (arith, h.1)) (omega (arith, h.1))
            (skip_blocked m n start i h.0 h.2 none_before))
    go complete h resume =
        found start b (record { inside = h.0; clear = λ j k. h.1 j (omega arith) k }) none_before

-- `Allocate` on a valid manager returns, within the fuel, the first run of `n` free frames of the
-- range and allocates exactly it, or refuses and changes nothing, when the range has no such run.
pub allocate-Outcome : (m : Manager) (n : ℕ) → IsValid m → Outcome m n (allocate m n)
unfolding allocate
allocate-Outcome m n v =
    allocate_from-Outcome (suc (m.range_end - m.range_begin)) m m.range_begin n v (omega arith)
      v.ordered (omega arith) (λ other low run. low)

-- The parts of what `Allocate` returns.
abbrev pub manager_of : Manager → Option (WithError ℕ × Manager) → Manager
manager_of m none = m
manager_of m (some (r, m')) = m'

abbrev pub start_of : Option (WithError ℕ × Manager) → ℕ
start_of none = null_frame
start_of (some (r, m')) = r.value

abbrev pub error_of : Option (WithError ℕ × Manager) → Error
error_of none = Error.no_enough_memory
error_of (some (r, m')) = r.error

Outcome-IsValid :
    {m : Manager} {n : ℕ} {r : Option (WithError ℕ × Manager)}
    → IsValid m
    → Outcome m n r
    → IsValid (manager_of m r)
Outcome-IsValid {m} {n} v (found start b run first) =
    mark_allocated-IsValid m start n v (omega (arith, run.inside, v))
Outcome-IsValid v (refused h) = v

-- `Allocate` keeps a manager valid, whether it succeeds or not.
pub allocate-IsValid : (m : Manager) (n : ℕ) → IsValid m → IsValid (manager_of m (allocate m n))
allocate-IsValid m n v = Outcome-IsValid v (allocate-Outcome m n v)

Outcome-free :
    {m : Manager} {n : ℕ} {r : Option (WithError ℕ × Manager)} (g : ℕ)
    → IsValid m
    → Outcome m n r
    → error_of r ≡ Error.success
    → get_bit (free (manager_of m r) (start_of r) n).1 g ≡ get_bit m g
Outcome-free {m} {n} g v (found start b run first) e =
    (free_lem (mark_allocated m start n) start n marked fits).1 g
    ∙ ground (arith, get_bit-mark_allocated m start n v inside g, was_clear)
  where
    inside : start + n ≤ frames m
    inside = omega (arith, run.inside, v)

    marked : IsValid (mark_allocated m start n)
    marked = mark_allocated-IsValid m start n v inside

    fits : start + n ≤ frames (mark_allocated m start n)
    fits = omega (arith, frames-mark_allocated m start n v inside)

    was_clear : among start n g ≡ true → get_bit m g ≡ false
    was_clear h = ap (get_bit m) (ground arith) ∙ run.clear (g - start) (ground arith)
Outcome-free g v (refused h) e = cc

-- A successful `Allocate` undone by `Free` leaves every bit of the map as it was.
pub free-allocate :
    (m : Manager) (n g : ℕ)
    → IsValid m
    → error_of (allocate m n) ≡ Error.success
    → get_bit (free (manager_of m (allocate m n)) (start_of (allocate m n)) n).1 g ≡ get_bit m g
free-allocate m n g v e = Outcome-free g v (allocate-Outcome m n v) e

Outcome-disjoint :
    {m : Manager} {n k : ℕ} {r s : Option (WithError ℕ × Manager)} (g : ℕ)
    → IsValid m
    → Outcome m n r
    → Outcome (manager_of m r) k s
    → error_of r ≡ Error.success
    → error_of s ≡ Error.success
    → among (start_of r) n g ≡ true
    → among (start_of s) k g ≡ false
Outcome-disjoint g v (refused h) o e e' a = cc
Outcome-disjoint g v (found start b run first) (refused h) e e' a = cc
Outcome-disjoint {m} {n} {k} g v (found start b run first) (found other c again least) e e' a =
    elim (Bool-cases (among other k g)) [
      | inr apart ↦ apart
      | inl both ↦ absurd (
          false≢true (
            sym (again.clear (g - other) (ground arith))
            ∙ ap (get_bit (mark_allocated m start n)) (ground arith)
            ∙ get_bit-mark_allocated m start n v (omega (arith, run.inside, v)) g
            ∙ ap (λ t. if t then true else get_bit m g) a))
    ]

-- Two allocations in a row never share a frame.
pub allocate_twice-disjoint :
    (m : Manager) (n k g : ℕ)
    → IsValid m
    → error_of (allocate m n) ≡ Error.success
    → error_of (allocate (manager_of m (allocate m n)) k) ≡ Error.success
    → among (start_of (allocate m n)) n g ≡ true
    → among (start_of (allocate (manager_of m (allocate m n)) k)) k g ≡ false
allocate_twice-disjoint m n k g v e e' a =
    Outcome-disjoint g v (allocate-Outcome m n v)
      (allocate-Outcome (manager_of m (allocate m n)) k (allocate-IsValid m n v)) e e' a
