-- ===== src/Paging/Walk.antt =====
-- What a walk through page tables (Kernel/paging.hpp) finds, and what it keeps finding when tables
-- are added.
use mikanos_copy.Common.{ℕ, zero, suc, ◌/◌, ◌%◌, ◌≤◌, ◌≡◌, refl, sym, subst, ◌∙◌, true}
use mikanos_copy.Memory.{get_bit}
use mikanos_copy.Memory.Bitmap.{IsValid}
use mikanos_copy.Paging.{Machine, present, addr}
use mikanos_copy.Paging.Linear.{span}

-- The entry of a page in a table of level `below + 1`.
abbrev pub index : (below page : ℕ) → ℕ
index below page = page / span below % 512

-- An entry of an allocated table that is present.
abbrev pub IsPresent : Machine → (table index : ℕ) → Type 0
IsPresent m table i = (get_bit m.manager table ≡ true) × (present (m.word table i) ≡ 1)

-- The walk from a table of level `below + 1` leads from the page to the frame.
unfoldable pub Maps : Machine → (below table page frame : ℕ) → Type 0
Maps m zero table page frame =
    IsPresent m table (index zero page) × (addr (m.word table (index zero page)) ≡ frame)
Maps m (suc below) table page frame =
    IsPresent m table (index (suc below) page)
    × Maps m below (addr (m.word table (index (suc below) page))) page frame

-- No allocated frame is freed, and no entry that is present changes where it leads.
pub record Extends (m m' : Machine) : Type 0 where
  pub frames : (f : ℕ) → get_bit m.manager f ≡ true → get_bit m'.manager f ≡ true
  pub entries :
      (f i : ℕ)
      → get_bit m.manager f ≡ true
      → present (m.word f i) ≡ 1
      → (present (m'.word f i) ≡ 1) × (addr (m'.word f i) ≡ addr (m.word f i))

-- Programs have the upper half of the addresses, behind the entries of the table of level 4 from here
-- on. The entries before belong to the kernel, which maps large pages there.
abbrev pub upper_half : ℕ
upper_half = 256

-- A table's level is given by `kind`, which is 0 for any other frame: there are those of the upper half,
-- and the one of level 4. They are allocated, and an entry above level 1 that is present leads to a
-- table of the next level, of level 4 if it is of the upper half.
pub record IsClosed (kind : ℕ → ℕ) (m : Machine) : Type 0 where
  pub tables : (f k : ℕ) → kind f ≡ suc k → get_bit m.manager f ≡ true
  pub leads :
      (f k i : ℕ)
      → kind f ≡ suc (suc k)
      → (k ≡ 2 → upper_half ≤ i)
      → present (m.word f i) ≡ 1
      → kind (addr (m.word f i)) ≡ suc k

-- From one state of the tables to a later one.
pub record Grown (kind : ℕ → ℕ) (m : Machine) (kind' : ℕ → ℕ) (m' : Machine) : Type 0 where
  pub valid : IsValid m'.manager
  pub extends : Extends m m'
  pub closed : IsClosed kind' m'
  pub kinds : (f k : ℕ) → kind f ≡ suc k → kind' f ≡ suc k

-- What was mapped stays mapped, to the same frame.
pub Maps-Extends :
    {m m' : Machine}
    → Extends m m'
    → (below table page frame : ℕ) → Maps m below table page frame
    → Maps m' below table page frame
unfolding Maps
Maps-Extends x zero table page frame ((used, here), leads) =
    let (there, same) = x.entries table (index zero page) used here in
    ((x.frames table used, there), same ∙ leads)
Maps-Extends {m' = m'} x (suc below) table page frame ((used, here), further) =
    let (there, same) = x.entries table (index (suc below) page) used here in
    (
      (x.frames table used, there),
      subst (λ t. Maps m' below t page frame) (sym same)
          (Maps-Extends x below _ page frame further),
    )

pub Grown_refl :
    {kind : ℕ → ℕ} {m : Machine} → IsValid m.manager → IsClosed kind m → Grown kind m kind m
Grown_refl v c = record {
  valid = v;
  extends = record { frames = λ f h. h; entries = λ f i h p. (p, refl) };
  closed = c;
  kinds = λ f k h. h;
}

pub Grown_trans :
    {k1 k2 k3 : ℕ → ℕ} {m1 m2 m3 : Machine}
    → Grown k1 m1 k2 m2
    → Grown k2 m2 k3 m3
    → Grown k1 m1 k3 m3
Grown_trans a b = record {
  valid = b.valid;
  extends = record {
    frames = λ f h. b.extends.frames f (a.extends.frames f h);
    entries = λ f i h p.
        let (p2, e2) = a.extends.entries f i h p in
        let (p3, e3) = b.extends.entries f i (a.extends.frames f h) p2 in (p3, e3 ∙ e2);
  };
  closed = b.closed;
  kinds = λ f k h. b.kinds f k (a.kinds f k h);
}
