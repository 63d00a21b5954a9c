-- ===== src/Memory/Bitmap.antt =====
-- The bitmap of Kernel/memory_manager.cpp seen as a set of allocated frames.
use mathlib.Core.Bool.{◌&&◌}
use mikanos_copy.Common.{
  ℕ, zero, suc, ◌+◌, ◌*◌, ◌/◌, ◌%◌, ◌≤◌, ◌<◌, ◌≡◌, refl, ap, ◌∙◌, Bool, true, false, not, length,
  get_or, length-set, get_or-set_self, get_or-set_ne, length-replicate, get_or-replicate, leb, ltb,
  ◌==◌, if◌then◌else◌, arith, ℕ_discrete, Bool-cases, inl, inr, ◌≢◌,
}
use mikanos_copy.Error.{Error}
use mikanos_copy.Common.Bits.{bit_at, bit_at-set, bit_at-clear, bit_and-test, bit_at-zero}
use mikanos_copy.Memory.{
  Manager, frame_count, clear_map, init, get_bit, set_bit, set_bits, mark_allocated, free,
}

-- The number of frames that the map has bits for.
abbrev pub frames : Manager → ℕ
frames m = 64 * length m.alloc_map

-- The map covers the range, and frame numbers do not wrap.
pub record IsValid (m : Manager) : Type 0 where
  pub ordered : m.range_begin ≤ m.range_end
  pub covered : m.range_end ≤ frames m
  pub small : frames m ≤ frame_count

length-clear_map : (n : ℕ) → length (clear_map n) ≡ n
unfolding clear_map
length-clear_map n = length-replicate n 0

get_or-clear_map : (n i : ℕ) → get_or (clear_map n) i 0 ≡ 0
unfolding clear_map
get_or-clear_map n i = get_or-replicate n i 0

pub frames-init : frames init ≡ frame_count
unfolding init
frames-init = omega (arith, length-clear_map (frame_count / 64))

pub init-IsValid : IsValid init
unfolding init
init-IsValid = omega (arith, length-clear_map (frame_count / 64))

get_bit-bit_at :
    (m : Manager) (f : ℕ) → get_bit m f ≡ not (bit_at (get_or m.alloc_map (f / 64) 0) (f % 64) == 0)
unfolding get_bit
get_bit-bit_at m f = ap not (bit_and-test (get_or m.alloc_map (f / 64) 0) (f % 64) (omega arith))

-- Nothing is allocated at first.
pub get_bit-init : (f : ℕ) → get_bit init f ≡ false
unfolding init
get_bit-init f =
    get_bit-bit_at init f
    ∙ rw (get_or-clear_map (frame_count / 64) (f / 64), bit_at-zero (f % 64)) refl

module _ (m : Manager) (f : ℕ) (allocated : Bool) (inside : f < frames m) where
  word_after : ℕ
  word_after = get_or (set_bit m f allocated).alloc_map (f / 64) 0

  same_word :
      (b : ℕ)
      → b < 64
      → bit_at word_after b ≡ (
          if f % 64 == b
          then (if allocated then 1 else 0)
          else bit_at (get_or m.alloc_map (f / 64) 0) b)
  unfolding word_after set_bit
  same_word b h =
      rw (get_or-set_self m.alloc_map (f / 64) _ 0 (omega arith)) (elim (Bool-cases allocated) [
        | inl e ↦ rw (e) (bit_at-set _ (f % 64) (omega arith) b)
        | inr e ↦ rw (e) (bit_at-clear _ (f % 64) (omega arith) b h)
      ])

  other_word :
      (l : ℕ) → f / 64 ≢ l → get_or (set_bit m f allocated).alloc_map l 0 ≡ get_or m.alloc_map l 0
  unfolding set_bit
  other_word l h = get_or-set_ne m.alloc_map (f / 64) l _ 0 h

  -- Writing one frame's bit is seen at that frame only.
  pub get_bit-set_bit :
      (g : ℕ) → get_bit (set_bit m f allocated) g ≡ (if f == g then allocated else get_bit m g)
  unfolding word_after
  get_bit-set_bit g = elim (ℕ_discrete (f / 64) (g / 64)) [
    | no ne ↦
        rw (get_bit-bit_at (set_bit m f allocated) g, get_bit-bit_at m g, other_word (g / 64) ne)
          (ground arith)
    | yes e ↦
        rw (get_bit-bit_at (set_bit m f allocated) g, get_bit-bit_at m g, ← e)
          (ground (arith, same_word (g % 64) (omega arith)))
  ]

  -- It leaves the range and the size of the map alone.
  pub set_bit_same :
      (frames (set_bit m f allocated) ≡ frames m)
      × ((set_bit m f allocated).range_begin ≡ m.range_begin)
      × ((set_bit m f allocated).range_end ≡ m.range_end)
  unfolding set_bit
  set_bit_same = (ap (λ t. 64 * t) (length-set m.alloc_map (f / 64) _), refl, refl)

-- Whether `g` is one of the `n` frames from `start` on.
abbrev pub among : ℕ → ℕ → ℕ → Bool
among start n g = leb start g && ltb g (start + n)

-- The loops of `MarkAllocated` and `Free` write exactly the bits of their frames.
module _ (start : ℕ) (allocated : Bool) where
  pub set_bits_lem :
      (rounds : ℕ) (m : Manager) (i : ℕ)
      → start + i + rounds ≤ frames m
      → frames m ≤ frame_count
      → ((g : ℕ)
          → get_bit (set_bits m start allocated i rounds) g
            ≡ (if among (start + i) rounds g then allocated else get_bit m g))
        × (frames (set_bits m start allocated i rounds) ≡ frames m)
        × ((set_bits m start allocated i rounds).range_begin ≡ m.range_begin)
        × ((set_bits m start allocated i rounds).range_end ≡ m.range_end)
  unfolding set_bits
  set_bits_lem zero m i h k = ((λ g. ground arith), refl, refl, refl)
  set_bits_lem (suc rounds) m i h k =
      let same = set_bit_same m (start + i) allocated inside in
      let rest =
        set_bits_lem rounds (set_bit m (start + i) allocated) (i + 1) (omega (arith, same.0))
          (omega (arith, same.0)) in
      rw step (
        (λ g. rest.0 g ∙ ground (arith, get_bit-set_bit m (start + i) allocated inside g)),
        rest.1 ∙ same.0,
        rest.2 ∙ same.1,
        rest.3 ∙ same.2,
      )
    where
      step :
          set_bits m start allocated i (suc rounds)
          ≡ set_bits (set_bit m (start + i) allocated) start allocated (i + 1) rounds
      step = ap (λ f. set_bits (set_bit m f allocated) start allocated (i + 1) rounds) (omega arith)

      inside : start + i < frames m
      inside = omega arith

module _ (m : Manager) (start n : ℕ) (valid : IsValid m) (inside : start + n ≤ frames m) where
  -- `MarkAllocated` allocates its frames, and no other frame changes.
  pub get_bit-mark_allocated :
      (g : ℕ)
      → get_bit (mark_allocated m start n) g ≡ (if among start n g then true else get_bit m g)
  unfolding mark_allocated
  get_bit-mark_allocated g =
      (set_bits_lem start true n m 0 (omega arith) valid.small).0 g
      ∙ ap (λ s. if among s n g then true else get_bit m g) (omega arith)

  pub frames-mark_allocated : frames (mark_allocated m start n) ≡ frames m
  unfolding mark_allocated
  frames-mark_allocated = (set_bits_lem start true n m 0 (omega arith) valid.small).1

  pub mark_allocated-IsValid : IsValid (mark_allocated m start n)
  unfolding mark_allocated
  mark_allocated-IsValid = omega (
    arith,
    valid,
    (set_bits_lem start true n m 0 (omega arith) valid.small).1,
    (set_bits_lem start true n m 0 (omega arith) valid.small).2,
    (set_bits_lem start true n m 0 (omega arith) valid.small).3,
  )

  -- `Free` always succeeds; it frees its frames, and no other frame changes.
  pub free_lem :
      ((free m start n).0 ≡ Error.success)
      × ((g : ℕ) → get_bit (free m start n).1 g ≡ (if among start n g then false else get_bit m g))
      × IsValid (free m start n).1
  unfolding free
  free_lem =
      let set = set_bits_lem start false n m 0 (omega arith) valid.small in
      (
        refl,
        (λ g. set.0 g ∙ ap (λ s. if among s n g then false else get_bit m g) (omega arith)),
        omega (arith, valid, set.1, set.2, set.3),
      )
