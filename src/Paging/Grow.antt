-- ===== src/Paging/Grow.antt =====
-- A table that is added behind an entry (Kernel/paging.cpp).
use mikanos_copy.Common.{
  ℕ, suc, ◌+◌, ◌^◌, ◌≤◌, ◌<◌, ◌≡◌, ◌≢◌, refl, sym, ap, ◌∙◌, subst, true, false, ◌==◌, if◌then◌else◌,
  arith, ℕ_discrete, ==-refl,
}
use mikanos_copy.Memory.{get_bit, mark_allocated}
use mikanos_copy.Memory.Bitmap.{
  IsValid, among, frames, get_bit-mark_allocated, mark_allocated-IsValid,
}
use mikanos_copy.Memory.Alloc.{FreeRun}
use mikanos_copy.Paging.{
  Machine, present, addr, set_present, set_writable, set_user, set_pointer, write, clear_frame,
  allow,
}
use mikanos_copy.Paging.Walk.{upper_half, IsPresent, IsClosed, Grown}

set_present_lem :
    (frame entry : ℕ)
    → frame < 2 ^ 40
    → (present (set_present (set_pointer frame entry)) ≡ 1)
      × (addr (set_present (set_pointer frame entry)) ≡ frame)
unfolding set_present set_pointer
set_present_lem frame entry h = omega (arith, h)

allow_lem :
    (entry : ℕ)
    → (present (set_user (set_writable entry)) ≡ present entry)
      × (addr (set_user (set_writable entry)) ≡ addr entry)
unfolding set_user set_writable
allow_lem entry = omega arith

word-write :
    (m : Machine) (t i v f j : ℕ)
    → (write m t i v).word f j ≡ (if f == t then (if j == i then v else m.word f j) else m.word f j)
unfolding write
word-write m t i v f j = refl

-- Rights do not change where an entry leads.
pub same_entry :
    (m : Machine) (t i f j : ℕ)
    → (present ((allow m t i).word f j) ≡ present (m.word f j))
      × (addr ((allow m t i).word f j) ≡ addr (m.word f j))
unfolding write
same_entry m t i f j = elim (ℕ_discrete f t) [
  | no other ↦ ground (arith, other)
  | yes e ↦ elim (ℕ_discrete j i) [
    | no other ↦ ground (arith, other)
    | yes k ↦ rw e (rw k (rw (==-refl t) (rw (==-refl i) (allow_lem (m.word t i)))))
  ]
]

pub allow-Grown :
    {kind : ℕ → ℕ} {m : Machine} (t i : ℕ)
    → IsValid m.manager
    → IsClosed kind m
    → Grown kind m kind (allow m t i)
unfolding write
allow-Grown {kind = kind} {m = m} t i v c = record {
  valid = v;
  extends = record {
    frames = λ f h. h;
    entries = λ f j h p. ((same_entry m t i f j).0 ∙ p, (same_entry m t i f j).1);
  };
  closed = record {
    tables = c.tables;
    leads = λ f k j e up p.
        ap kind (same_entry m t i f j).1 ∙ c.leads f k j e up (sym (same_entry m t i f j).0 ∙ p);
  };
  kinds = λ f k h. h;
}

-- An entry that leads to the child.
pub record HasChild (kind : ℕ → ℕ) (m : Machine) (t i below child : ℕ) (kind' : ℕ → ℕ)
    (m' : Machine) : Type 0 where
  pub grown : Grown kind m kind' m'
  pub there : IsPresent m' t i
  pub leads : addr (m'.word t i) ≡ child
  pub level : (k : ℕ) → below ≡ suc k → kind' child ≡ suc k

-- A free frame that becomes a table of the level `below` (0 for a page) behind an entry that was not
-- present.
module _ {kind : ℕ → ℕ} {m : Machine} (v : IsValid m.manager) (c : IsClosed kind m)
    (t i below g : ℕ) (level : kind t ≡ suc below) (absent : (present (m.word t i) == 1) ≡ false)
    (fresh : FreeRun m.manager g 1) where
  unfoldable pub marked : Machine
  marked = record m { manager = mark_allocated m.manager g 1 }

  unfoldable pub grown : Machine
  grown =
      write (clear_frame marked g) t i
        (set_present (set_pointer g ((clear_frame marked g).word t i)))

  pub kind_after : ℕ → ℕ
  kind_after f = if f == g then below else kind f

  is_free : get_bit m.manager g ≡ false
  is_free = ap (get_bit m.manager) (omega arith) ∙ fresh.clear 0 (omega arith)

  inside : g + 1 ≤ frames m.manager
  inside = omega (arith, fresh.inside, v.covered)

  used_apart : (f : ℕ) → get_bit m.manager f ≡ true → f ≢ g
  used_apart f h e = ground (arith, h, is_free, ap (get_bit m.manager) e)

  bits : (f : ℕ) → get_bit grown.manager f ≡ (if among g 1 f then true else get_bit m.manager f)
  unfolding grown marked write clear_frame
  bits f = get_bit-mark_allocated m.manager g 1 v inside f

  still_used : (f : ℕ) → get_bit m.manager f ≡ true → get_bit grown.manager f ≡ true
  still_used f h = ground (arith, bits f, h)

  now_used : get_bit grown.manager g ≡ true
  now_used = ground (arith, bits g)

  table_used : get_bit m.manager t ≡ true
  table_used = c.tables t below level

  -- The words of the new machine: the entry, the new frame, and all others.
  new_entry : (present (grown.word t i) ≡ 1) × (addr (grown.word t i) ≡ g)
  unfolding grown marked write clear_frame
  new_entry = rw (==-refl t) (
      rw (==-refl i)
        (set_present_lem g ((clear_frame marked g).word t i) (omega (arith, inside, v.small))))

  new_frame : (j : ℕ) → grown.word g j ≡ 0
  unfolding grown marked write clear_frame
  new_frame j = ground (arith, used_apart t table_used)

  other_words : (f j : ℕ) → f ≢ g → (f ≡ t → j ≢ i) → grown.word f j ≡ m.word f j
  unfolding grown marked write clear_frame
  other_words f j ne apart = ground (arith, ne, apart)

  -- An entry that was present is another one.
  old_entry : (f j : ℕ) → present (m.word f j) ≡ 1 → f ≡ t → j ≢ i
  old_entry f j p e k =
      ground (arith, absent, p, ap present (ap (m.word f) k), ap (λ x. present (m.word x i)) e)

  kind_old : (f k : ℕ) → kind f ≡ suc k → kind_after f ≡ suc k
  unfolding kind_after
  kind_old f k e = ground (arith, e, used_apart f (c.tables f k e))

  kind_new : kind_after g ≡ below
  unfolding kind_after
  kind_new = rw (==-refl g) refl

  kind_before : (f k : ℕ) → f ≢ g → kind_after f ≡ suc k → kind f ≡ suc k
  unfolding kind_after
  kind_before f k ne e = ground (arith, ne, e)

  used_after : (f k : ℕ) → kind_after f ≡ suc k → get_bit grown.manager f ≡ true
  used_after f k e = elim (ℕ_discrete f g) [
    | yes same ↦ subst (λ x. get_bit grown.manager x ≡ true) (sym same) now_used
    | no ne ↦ still_used f (c.tables f k (kind_before f k ne e))
  ]

  leads_old :
      (f k j : ℕ)
      → kind f ≡ suc (suc k)
      → (k ≡ 2 → upper_half ≤ j)
      → (f ≡ t → j ≢ i)
      → present (grown.word f j) ≡ 1
      → kind_after (addr (grown.word f j)) ≡ suc k
  leads_old f k j e up apart p =
      let same = other_words f j (used_apart f (c.tables f (suc k) e)) apart in
      kind_old (addr (grown.word f j)) k
        (ap (λ w. kind (addr w)) same ∙ c.leads f k j e up (ap present (sym same) ∙ p))

  leads_after :
      (f k j : ℕ)
      → kind_after f ≡ suc (suc k)
      → (k ≡ 2 → upper_half ≤ j)
      → present (grown.word f j) ≡ 1
      → kind_after (addr (grown.word f j)) ≡ suc k
  leads_after f k j e up p = elim (ℕ_discrete f g) [
    | yes new ↦
        absurd (omega (arith, p, ap (λ x. present (grown.word x j)) new, ap present (new_frame j)))
    | no ne ↦ elim (ℕ_discrete f t) [
      | no other ↦ leads_old f k j (kind_before f (suc k) ne e) up (λ q. absurd (other q)) p
      | yes at ↦ elim (ℕ_discrete j i) [
        | no other ↦ leads_old f k j (kind_before f (suc k) ne e) up (λ q. other) p
        | yes here ↦
            ap kind_after (
              ap (λ x. addr (grown.word x j)) at
              ∙ ap (λ x. addr (grown.word t x)) here
              ∙ new_entry.1)
            ∙ kind_new
            ∙ omega (arith, level, ap kind at, kind_before f (suc k) ne e)
      ]
    ]
  ]

  grown-IsValid : IsValid grown.manager
  unfolding grown marked write clear_frame
  grown-IsValid = mark_allocated-IsValid m.manager g 1 v inside

  Grown_new : Grown kind m kind_after grown
  Grown_new = record {
    valid = grown-IsValid;
    extends = record {
      frames = still_used;
      entries = λ f j h p.
          let same = other_words f j (used_apart f h) (old_entry f j p) in
          (ap present same ∙ p, ap addr same);
    };
    closed = record { tables = used_after; leads = leads_after };
    kinds = kind_old;
  }

  pub new_child : HasChild kind m t i below g kind_after grown
  new_child = record {
    grown = Grown_new;
    there = (still_used t table_used, new_entry.0);
    leads = new_entry.1;
    level = λ k h. kind_new ∙ h;
  }
