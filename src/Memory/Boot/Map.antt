-- ===== src/Memory/Boot/Map.antt =====
-- What the marking loop of `InitializeMemoryManager` (Kernel/memory_manager.cpp) leaves in the bitmap.
use mikanos_copy.Common.{
  ℕ, ◌+◌, ◌-◌, ◌*◌, ◌/◌, ◌%◌, ◌≤◌, ◌<◌, ◌≡◌, refl, subst, fun_ext, ◌∙◌, Bool, true, false, not,
  ◌&&◌, ◌||◌, List, [], ◌∷◌, ltb, arith, Bool-cases, inl, inr,
}
use mikanos_copy.Memory.{Manager, init, get_bit, mark_allocated}
use mikanos_copy.Memory.Bitmap.{
  IsValid, frames, among, get_bit-init, init-IsValid, get_bit-mark_allocated,
  mark_allocated-IsValid, frames-mark_allocated, frames-init,
}
use mikanos_copy.Memory.Boot.{
  MemoryDescriptor, is_available, physical_end, size_in_bytes, mark_gap, take_descriptor,
  take_descriptors, available_frame, IsOrdered, map_end,
}

-- The frames below `low` are allocated, but for those of `kept`, and no other frame is.
abbrev Marked : Manager → ℕ → (ℕ → Bool) → Type 0
Marked m low kept = (g : ℕ) → get_bit m g ≡ (ltb (4096 * g) low && not (kept g))

-- What the loop keeps true, between two descriptors.
record Between (limit : ℕ) (m : Manager) (available_end low : ℕ) (kept : ℕ → Bool) : Type 0 where
  valid : IsValid m
  size : 4096 * frames m ≡ limit
  behind : available_end ≤ low
  inside : low ≤ limit
  whole_end : available_end % 4096 ≡ 0
  whole_low : low % 4096 ≡ 0
  marked : Marked m low kept
  kept_below : (g : ℕ) → kept g ≡ true → 4096 * g < available_end

module _ {limit : ℕ} {m : Manager} {available_end low : ℕ} {kept : ℕ → Bool}
    (b : Between limit m available_end low kept) where
  module _ (start : ℕ) (h : low ≤ start) (w : start % 4096 ≡ 0) (f : start ≤ limit) where
    mark_gap-Between : Between limit (mark_gap m available_end start) available_end start kept
    unfolding mark_gap
    mark_gap-Between = elim (Bool-cases (ltb available_end start)) [
      | inl gap ↦ rw gap (record {
        valid = mark_allocated-IsValid m _ _ b.valid fits;
        size = omega (arith, b.size, frames-mark_allocated m _ _ b.valid fits);
        behind = omega (arith, b.behind);
        inside = f;
        whole_end = b.whole_end;
        whole_low = w;
        marked = λ g.
            get_bit-mark_allocated m _ _ b.valid fits g
            ∙ ground (arith, b.marked g, b.kept_below g, b);
        kept_below = b.kept_below;
      })
      | inr closed ↦ rw closed (record {
        valid = b.valid;
        size = b.size;
        behind = omega (arith, b.behind);
        inside = f;
        whole_end = b.whole_end;
        whole_low = w;
        marked = λ g. ground (arith, b.marked g, b.behind);
        kept_below = b.kept_below;
      })
    ]
      where
        fits : available_end / 4096 + (start - available_end) / 4096 ≤ frames m
        fits = omega (arith, b.size, b.behind, b.whole_end)

-- Adding one descriptor's frames to those that are kept.
abbrev keep : MemoryDescriptor → (ℕ → Bool) → ℕ → Bool
keep desc kept g =
    kept g || (is_available desc.type && among (desc.physical_start / 4096) desc.number_of_pages g)

module _ {limit : ℕ} {m : Manager} {available_end low : ℕ} {kept : ℕ → Bool}
    (b : Between limit m available_end low kept) where
  module _ (desc : MemoryDescriptor) (h : low ≤ desc.physical_start)
      (w : desc.physical_start % 4096 ≡ 0)
      (f : desc.physical_start + desc.number_of_pages * 4096 ≤ limit) where
    gap :
        Between limit
          (mark_gap m available_end desc.physical_start)
          available_end
          desc.physical_start
          kept
    gap = mark_gap-Between b desc.physical_start h w (omega arith)

    -- No size or end of a descriptor wraps.
    bytes :
        (size_in_bytes desc ≡ desc.number_of_pages * 4096)
        × (physical_end desc ≡ desc.physical_start + desc.number_of_pages * 4096)
    bytes = omega (arith, b.size, b.valid.small)

    fits :
        desc.physical_start / 4096 + desc.number_of_pages
        ≤ frames (mark_gap m available_end desc.physical_start)
    fits = omega (arith, gap.size)

    kept_descriptor :
        is_available desc.type ≡ true
        → Between limit
            (mark_gap m available_end desc.physical_start)
            (desc.physical_start + desc.number_of_pages * 4096)
            (desc.physical_start + desc.number_of_pages * 4096)
            (keep desc kept)
    unfolding gap
    kept_descriptor e = record {
      valid = gap.valid;
      size = gap.size;
      behind = omega arith;
      inside = f;
      whole_end = omega arith;
      whole_low = omega arith;
      marked = λ g. ground (arith, e, gap.marked g, gap.kept_below g, gap.behind);
      kept_below = λ g k. ground (arith, e, gap.kept_below g, gap.behind);
    }

    lost_descriptor :
        is_available desc.type ≡ false
        → Between limit
            (mark_allocated
              (mark_gap m available_end desc.physical_start)
              (desc.physical_start / 4096)
              desc.number_of_pages)
            available_end
            (desc.physical_start + desc.number_of_pages * 4096)
            (keep desc kept)
    unfolding gap
    lost_descriptor e = record {
      valid = mark_allocated-IsValid _ _ _ gap.valid fits;
      size = omega (arith, gap.size, frames-mark_allocated _ _ _ gap.valid fits);
      behind = omega (arith, gap.behind);
      inside = f;
      whole_end = gap.whole_end;
      whole_low = omega arith;
      marked = λ g.
          get_bit-mark_allocated _ _ _ gap.valid fits g
          ∙ ground (arith, e, gap.marked g, gap.kept_below g, gap.behind);
      kept_below = λ g k. ground (arith, e, gap.kept_below g);
    }

    take_descriptor-Between :
        Between limit
          (take_descriptor desc m available_end).0
          (take_descriptor desc m available_end).1
          (desc.physical_start + desc.number_of_pages * 4096)
          (keep desc kept)
    unfolding take_descriptor
    take_descriptor-Between = elim (Bool-cases (is_available desc.type)) [
      | inl e ↦ rw e (rw (bytes.1) (kept_descriptor e))
      | inr e ↦ rw e (rw bytes.0 (rw pages (lost_descriptor e)))
    ]
      where
        pages : desc.number_of_pages * 4096 / 4096 ≡ desc.number_of_pages
        pages = omega arith

Between-kept :
    {limit : ℕ} {m : Manager} {available_end low : ℕ} {kept kept' : ℕ → Bool}
    → ((g : ℕ) → kept g ≡ kept' g)
    → Between limit m available_end low kept
    → Between limit m available_end low kept'
Between-kept {limit} {m} {available_end} {low} h b =
    subst (λ k. Between limit m available_end low k) (fun_ext h) b

-- Through the whole map.
take_descriptors-Between :
    (descriptors : List MemoryDescriptor) {limit : ℕ} {m : Manager} {available_end low : ℕ}
    {kept : ℕ → Bool}
    → Between limit m available_end low kept
    → IsOrdered limit low descriptors
    → Between limit
        (take_descriptors descriptors m available_end).0
        (take_descriptors descriptors m available_end).1
        (map_end low descriptors)
        (λ g. kept g || available_frame descriptors g)
unfolding take_descriptors available_frame
take_descriptors-Between [] b o = Between-kept (λ g. ground arith) b
take_descriptors-Between (desc ∷ rest) {kept = kept} b o =
    Between-kept (λ g. ground arith)
      (take_descriptors-Between rest (take_descriptor-Between b desc o.0 o.1 o.2) o.3)

init-Between : Between (128 * 1024 * 1024 * 1024) init 0 0 (λ g. false)
init-Between = record {
  valid = init-IsValid;
  size = omega (arith, frames-init);
  behind = omega arith;
  inside = omega arith;
  whole_end = refl;
  whole_low = refl;
  marked = λ g. get_bit-init g ∙ ground arith;
  kept_below = λ g e. cc;
}

-- For a memory map of whole pages, in order, without overlap and below 128 GiB, the loop allocates
-- exactly the frames below the end of the map that no available descriptor holds: the gaps and the
-- other descriptors, however often the loop marks one of them.
pub get_bit-take_descriptors :
    (descriptors : List MemoryDescriptor) (g : ℕ)
    → IsOrdered (128 * 1024 * 1024 * 1024) 0 descriptors
    → get_bit (take_descriptors descriptors init 0).0 g
      ≡ (ltb (4096 * g) (map_end 0 descriptors) && not (available_frame descriptors g))
get_bit-take_descriptors descriptors g o =
    (take_descriptors-Between descriptors init-Between o).marked g
