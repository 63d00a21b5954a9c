-- ===== src/Elf/Contents.antt =====
-- What the loop of `CopyLoadSegments` (Kernel/elf.cpp) leaves in memory.
use mikanos_copy.Common.{
  ℕ, suc, ◌+◌, ◌-◌, ◌%◌, ◌^◌, ◌≤◌, ◌<◌, ◌≡◌, ◌≢◌, refl, sym, ap, ◌∙◌, arith, subst, ℕ_discrete,
}
use mikanos_copy.Elf.{ProgramHeader, Image, pt_load, header, Loader, copy_segment}

-- A segment in the upper half of the addresses that does not wrap around, and whose part in the file
-- is no longer than the segment.
pub record IsSound (ph : ProgramHeader) : Type 0 where
  pub high : 0xffff800000000000 ≤ ph.p_vaddr
  pub starts : ph.p_vaddr < 2 ^ 64
  pub ends : ph.p_vaddr + ph.p_memsz ≤ 2 ^ 64
  pub in_file : ph.p_filesz ≤ ph.p_memsz

-- The segments to load from round `i` on are sound.
abbrev pub AreSound : Image → (rounds i : ℕ) → Type 0
AreSound e rounds i =
    (j : ℕ) → i ≤ j → j < i + rounds → (header e j).p_type ≡ pt_load → IsSound (header e j)

-- The address lies in none of the segments to load from `first` on, before `last`.
abbrev pub IsOutside : Image → (first last address : ℕ) → Type 0
IsOutside e first last a =
    (k : ℕ)
    → first ≤ k
    → k < last
    → (header e k).p_type ≡ pt_load
    → (header e k).p_vaddr ≤ a
    → (header e k).p_vaddr + (header e k).p_memsz ≤ a

-- After the rounds, an address of a segment that no later segment covers has its byte of the file, or 0
-- behind the part that the file has, and an address of no segment has what it had.
pub record HasContents (e : Image) (rounds i : ℕ) (before after : ℕ → ℕ) : Type 0 where
  pub filled :
      (j a : ℕ)
      → i ≤ j
      → j < i + rounds
      → (header e j).p_type ≡ pt_load
      → (header e j).p_vaddr ≤ a
      → a < (header e j).p_vaddr + (header e j).p_filesz
      → IsOutside e (suc j) (i + rounds) a
      → after a ≡ e.byte ((header e j).p_offset + (a - (header e j).p_vaddr))
  pub cleared :
      (j a : ℕ)
      → i ≤ j
      → j < i + rounds
      → (header e j).p_type ≡ pt_load
      → (header e j).p_vaddr + (header e j).p_filesz ≤ a
      → a < (header e j).p_vaddr + (header e j).p_memsz
      → IsOutside e (suc j) (i + rounds) a
      → after a ≡ 0
  pub kept : (a : ℕ) → IsOutside e i (i + rounds) a → after a ≡ before a

pub no_rounds : (e : Image) (i : ℕ) (memory : ℕ → ℕ) → HasContents e 0 i memory memory
no_rounds e i memory = record {
  filled = λ j a b c. absurd (omega (arith, b, c));
  cleared = λ j a b c. absurd (omega (arith, b, c));
  kept = λ a o. refl;
}

-- The bytes that follow the part of the file.
behind_file :
    (ph : ProgramHeader)
    → IsSound ph
    → ph.p_vaddr + ph.p_filesz + (ph.p_memsz + 2 ^ 64 - ph.p_filesz) % 2 ^ 64
      ≡ ph.p_vaddr + ph.p_memsz
behind_file ph s = omega (arith, s.high, s.ends, s.in_file)

copy_segment-filled :
    (e : Image) (ph : ProgramHeader) (l : Loader) (a : ℕ)
    → ph.p_vaddr ≤ a
    → a < ph.p_vaddr + ph.p_filesz
    → (copy_segment e ph l).memory a ≡ e.byte (ph.p_offset + (a - ph.p_vaddr))
unfolding copy_segment
copy_segment-filled e ph l a from to = ground (arith, from, to)

copy_segment-cleared :
    (e : Image) (ph : ProgramHeader) (l : Loader) (a : ℕ)
    → IsSound ph
    → ph.p_vaddr + ph.p_filesz ≤ a
    → a < ph.p_vaddr + ph.p_memsz
    → (copy_segment e ph l).memory a ≡ 0
unfolding copy_segment
copy_segment-cleared e ph l a s from to = ground (arith, from, to, behind_file ph s)

copy_segment-kept :
    (e : Image) (ph : ProgramHeader) (l : Loader) (a : ℕ)
    → IsSound ph
    → (ph.p_vaddr ≤ a → ph.p_vaddr + ph.p_memsz ≤ a)
    → (copy_segment e ph l).memory a ≡ l.memory a
unfolding copy_segment
copy_segment-kept e ph l a s out = ground (arith, out, behind_file ph s, s.in_file)

module _ (e : Image) (rounds i : ℕ) where
  from_next :
      {first : ℕ} (a : ℕ)
      → IsOutside e first (i + suc rounds) a
      → IsOutside e first (suc i + rounds) a
  from_next a o k b c = o k b (omega (arith, c))

  later-IsOutside :
      (a : ℕ) → IsOutside e i (i + suc rounds) a → IsOutside e (suc i) (suc i + rounds) a
  later-IsOutside a o k b c = o k (omega (arith, b)) (omega (arith, c))

  pub skip_contents :
      {before after : ℕ → ℕ}
      → (header e i).p_type ≢ pt_load
      → HasContents e rounds (suc i) before after
      → HasContents e (suc rounds) i before after
  skip_contents other h = record {
    filled = λ j a b c load from to out. elim (ℕ_discrete i j) [
      | yes here ↦ absurd (other (ap (λ n. (header e n).p_type) here ∙ load))
      | no further ↦
          h.filled j a (omega (arith, b, further)) (omega (arith, c)) load from to (from_next a out)
    ];
    cleared = λ j a b c load from to out. elim (ℕ_discrete i j) [
      | yes here ↦ absurd (other (ap (λ n. (header e n).p_type) here ∙ load))
      | no further ↦
          h.cleared j a (omega (arith, b, further)) (omega (arith, c)) load from to
            (from_next a out)
    ];
    kept = λ a out. h.kept a (later-IsOutside a out);
  }

pub add_contents :
    {e : Image} (rounds i : ℕ) (l : Loader) {after : ℕ → ℕ}
    → (header e i).p_type ≡ pt_load
    → IsSound (header e i)
    → HasContents e rounds (suc i) (copy_segment e (header e i) l).memory after
    → HasContents e (suc rounds) i l.memory after
add_contents {e = image} rounds i l {after = after} load sound h = record {
  filled = λ j a b c at from to out. elim (ℕ_discrete j i) [
    | yes here ↦
        h.kept a (
          from_next image rounds i a
            (subst (λ n. IsOutside image (suc n) (i + suc rounds) a) here out))
        ∙ copy_segment-filled image (header image i) l a
            (subst (λ n. (header image n).p_vaddr ≤ a) here from)
            (subst (λ n. a < (header image n).p_vaddr + (header image n).p_filesz) here to)
        ∙ ap (λ n. image.byte ((header image n).p_offset + (a - (header image n).p_vaddr)))
            (sym here)
    | no further ↦
        h.filled j a (omega (arith, b, further)) (omega (arith, c)) at from to
          (from_next image rounds i a out)
  ];
  cleared = λ j a b c at from to out. elim (ℕ_discrete j i) [
    | yes here ↦
        h.kept a (
          from_next image rounds i a
            (subst (λ n. IsOutside image (suc n) (i + suc rounds) a) here out))
        ∙ copy_segment-cleared image (header image i) l a sound
            (subst (λ n. (header image n).p_vaddr + (header image n).p_filesz ≤ a) here from)
            (subst (λ n. a < (header image n).p_vaddr + (header image n).p_memsz) here to)
    | no further ↦
        h.cleared j a (omega (arith, b, further)) (omega (arith, c)) at from to
          (from_next image rounds i a out)
  ];
  kept = λ a out.
      h.kept a (later-IsOutside image rounds i a out)
      ∙ copy_segment-kept image (header image i) l a sound (out i (omega arith) (omega arith) load);
}
