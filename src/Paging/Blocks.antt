-- ===== src/Paging/Blocks.antt =====
-- What `SetupPageMap` (Kernel/paging.cpp) does for the pages behind one entry, and for those behind
-- the entries after it.
use mikanos_copy.Common.{
  ℕ, zero, suc, ◌+◌, ◌-◌, ◌%◌, ◌≤◌, ◌<◌, ◌≡◌, refl, sym, ap, ◌∙◌, subst, some, arith, dec_lt,
}
use mathlib.Core.Path.{subst₂}
use mikanos_copy.Error.{Error}
use mikanos_copy.Memory.Bitmap.{IsValid}
use mikanos_copy.Paging.{Machine, addr, write, allow, Result}
use mikanos_copy.Paging.Linear.{page, block_end, before-block_end, block_end_next, same_block}
use mikanos_copy.Paging.Walk.{
  upper_half, index, IsPresent, Maps, Maps-Extends, Extends, IsClosed, Grown, Grown_refl,
  Grown_trans,
}
use mikanos_copy.Paging.Grow.{HasChild, same_entry, allow-Grown}

-- The frame that a page is mapped to from an entry above `levels` levels of tables.
unfoldable pub Behind : Machine → (levels table page frame : ℕ) → Type 0
Behind m zero table page frame = table ≡ frame
Behind m (suc levels) table page frame = Maps m levels table page frame

pub Behind-Extends :
    {m m' : Machine}
    → Extends m m'
    → (levels table page frame : ℕ) → Behind m levels table page frame
    → Behind m' levels table page frame
unfolding Behind
Behind-Extends x zero table page frame h = h
Behind-Extends x (suc levels) table page frame h = Maps-Extends x levels table page frame h

Maps-Behind :
    (m : Machine) (below table page frame : ℕ)
    → IsPresent m table (index below page)
    → Behind m below (addr (m.word table (index below page))) page frame
    → Maps m below table page frame
unfolding Maps Behind
Maps-Behind m zero table page frame there leads = (there, leads)
Maps-Behind m (suc below) table page frame there leads = (there, leads)

-- The pages from `p` on that lie in the block and are among the `num` asked for are mapped.
abbrev pub Mapped : Machine → (levels table p num : ℕ) → Type 0
Mapped m levels table p num =
    (q : ℕ)
    → p ≤ q
    → q < p + num
    → q < block_end levels p
    → (frame : ℕ) × Behind m levels table q frame

pub data SetUp (kind : ℕ → ℕ) (m : Machine) (levels table p num : ℕ) (r : Result) : Type 0 where
  set_up :
      (kind' : ℕ → ℕ) (m' : Machine) (remain : ℕ)
      → Grown kind m kind' m'
      → remain ≡ p + num - block_end levels p
      → Mapped m' levels table p num
      → r ≡ some (remain, Error.success, m')
      → SetUp kind m levels table p num r
  out_of_memory_at :
      (kind' : ℕ → ℕ) (m' : Machine) (remain : ℕ)
      → Grown kind m kind' m'
      → r ≡ some (remain, Error.no_enough_memory, m')
      → SetUp kind m levels table p num r

-- Nothing to do.
pub none_asked :
    {kind : ℕ → ℕ} {m : Machine} (levels table p num : ℕ)
    → levels < 5
    → num ≡ 0
    → IsValid m.manager
    → IsClosed kind m
    → SetUp kind m levels table p num (some (num, Error.success, m))
none_asked {kind = kind} {m = m} levels table p num h none_left v c =
    set_up kind m num (Grown_refl v c) (omega (arith, none_left, before-block_end levels p h))
      (λ q a b e. absurd (omega (arith, none_left, a, b))) refl

-- What is done to the table behind an entry.
abbrev pub DoesChild : (levels : ℕ) → (Machine → (table value num : ℕ) → Result) → Type 0
DoesChild levels child =
    (kind : ℕ → ℕ) (m : Machine) (table value num : ℕ)
    → IsValid m.manager
    → IsClosed kind m
    → ((k : ℕ) → levels ≡ suc k → kind table ≡ suc k)
    → (levels ≡ 4 → upper_half ≤ index 3 (page value))
    → SetUp kind m levels table (page value) num (child m table value num)

-- The entry of page `p` leads to a child in which the pages up to the end of the entry are mapped.
pub entry-Mapped :
    {m m' : Machine} (below t child p num : ℕ)
    → below < 4
    → Extends m m'
    → IsPresent m t (index below p)
    → addr (m.word t (index below p)) ≡ child
    → Mapped m' below child p num
    → (q : ℕ) → p ≤ q
    → q < p + num
    → q < block_end below p
    → (frame : ℕ) × Maps m' below t q frame
entry-Mapped {m = m} {m' = m'} below t child p num h x (used, there) leads mapped q a b e =
    let (still, same) = x.entries t (index below p) used there in
    let (frame, behind) = mapped q a b e in
    let here : index below p ≡ index below q =
      ap (λ n. n % 512) (sym (same_block below p q h a e)) in
    (
      frame,
      Maps-Behind m' below t q frame (subst (λ i. IsPresent m' t i) here (x.frames t used, still)) (
          subst (λ i. Behind m' below (addr (m'.word t i)) q frame) here
            (subst (λ c. Behind m' below c q frame) (sym (same ∙ leads)) behind)),
    )

-- The rest of the table adds to the pages behind one entry.
later-Mapped :
    {m m' : Machine} (below t p num : ℕ)
    → Extends m m'
    → ((q : ℕ) → p ≤ q → q < p + num → q < block_end below p → (frame : ℕ) × Maps m below t q frame)
    → Mapped m' (suc below) t (block_end below p) (p + num - block_end below p)
    → block_end (suc below) (block_end below p) ≡ block_end (suc below) p
    → Mapped m' (suc below) t p num
unfolding Behind
later-Mapped below t p num x first later same q a b e = elim (dec_lt q (block_end below p)) [
  | yes here ↦ let (frame, maps) = first q a b here in (frame, Maps-Extends x below t q frame maps)
  | no after ↦ later q (omega (arith, after)) (omega (arith, after, b)) (omega (arith, e, same))
]

-- The entry that is set up, with its rights.
pub allowed :
    {kind kind' : ℕ → ℕ} {m m' : Machine} (t i below child : ℕ)
    → HasChild kind m t i below child kind' m'
    → IsPresent (allow m' t i) t i × (addr ((allow m' t i).word t i) ≡ child)
unfolding write
allowed {m' = m'} t i below child has =
    let same = same_entry m' t i t i in ((has.there.0, same.0 ∙ has.there.1), same.1 ∙ has.leads)

pub allowed-Grown :
    {kind kind' : ℕ → ℕ} {m m' : Machine} (t i below child : ℕ)
    → HasChild kind m t i below child kind' m'
    → Grown kind m kind' (allow m' t i)
allowed-Grown t i below child has =
    Grown_trans has.grown (allow-Grown t i has.grown.valid has.grown.closed)

-- The last entry of a table ends the setting up of the table.
pub last_entry :
    {kind kind' : ℕ → ℕ} {m m' : Machine} (below t p num : ℕ) {remain : ℕ}
    → block_end below p ≡ block_end (suc below) p
    → Grown kind m kind' m'
    → ((q : ℕ)
        → p ≤ q
        → q < p + num
        → q < block_end below p
        → (frame : ℕ) × Maps m' below t q frame)
    → remain ≡ p + num - block_end below p
    → SetUp kind m (suc below) t p num (some (remain, Error.success, m'))
unfolding Behind
last_entry {kind' = kind'} {m' = m'} below t p num {remain = remain} same g first er =
    set_up kind' m' remain g (er ∙ ap (λ b. p + num - b) same)
      (λ q a b e. first q a b (omega (arith, e, same))) refl

pub moved :
    {kind : ℕ → ℕ} {m : Machine} {levels t p p' n n' : ℕ} {r : Result}
    → p ≡ p'
    → n ≡ n'
    → SetUp kind m levels t p n r
    → SetUp kind m levels t p' n' r
moved {kind = kind} {m = m} {levels = levels} {t = t} {r = r} a b s =
    subst₂ (λ p n. SetUp kind m levels t p n r) a b s

-- The rest of the table is set up after one entry.
pub after_entry :
    {kind kind' : ℕ → ℕ} {m m' : Machine} {r : Result} (below t p num : ℕ)
    → below < 4
    → index below p < 511
    → Grown kind m kind' m'
    → ((q : ℕ)
        → p ≤ q
        → q < p + num
        → q < block_end below p
        → (frame : ℕ) × Maps m' below t q frame)
    → SetUp kind' m' (suc below) t (block_end below p) (p + num - block_end below p) r
    → SetUp kind m (suc below) t p num r
after_entry below t p num h more g first (out_of_memory_at kind3 m3 remain g3 e) =
    out_of_memory_at kind3 m3 remain (Grown_trans g g3) e
after_entry below t p num h more g first (set_up kind3 m3 remain g3 er mapped e) =
    let next = block_end_next below p h more in
    set_up kind3 m3 remain (Grown_trans g g3) (omega (arith, er, next))
      (later-Mapped below t p num g3.extends first mapped next.1) e
