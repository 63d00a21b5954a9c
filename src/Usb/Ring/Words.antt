-- ===== src/Usb/Ring/Words.antt =====
-- The commands of a ring as the controller reads them (Kernel/usb/xhci/ring.cpp): the words of a cell,
-- its cycle bit, and the link at the end.
use Prim.Native.Nat.{bit_and, bit_or}
use mikanos_copy.Common.{
  ℕ, suc, ◌+◌, ◌-◌, ◌*◌, ◌/◌, ◌%◌, ◌^◌, ◌≤◌, ◌<◌, ◌≡◌, refl, sym, ap, ◌∙◌, subst, Bool, true, false,
  List, [], ◌∷◌, length, get_or, add64, ◌==◌, if◌then◌else◌, arith,
}
use mikanos_copy.Common.Masks.{bit_and-run, bit_or-add}
use mikanos_copy.Usb.Ring.{Trb, Ring, empty_trb, bit, stamp, copy_to_last, link_trb, push, push_all}
use mikanos_copy.Usb.Ring.Laps.{lap_bit, cell, fresh, push_all-Recorded}

-- A cell that holds a command: the lowest bit of the last word is the cycle bit, all else is as given,
-- in words of 32 bits.
abbrev pub Holds : Trb → Trb → Bool → Type 0
Holds c t cycle =
    (c.word0 ≡ t.word0)
    × (c.word1 ≡ t.word1)
    × (c.word2 ≡ t.word2)
    × (c.word3 / 2 ≡ t.word3 % 2 ^ 32 / 2)
    × (c.word3 % 2 ≡ (if cycle then 1 else 0))

-- A cell that links to an address, of the type 6, and asks the controller to turn its bit.
abbrev pub Links : Trb → ℕ → Bool → Type 0
Links c buf cycle =
    (c.word0 + 2 ^ 32 * c.word1 ≡ buf)
    × (c.word3 / 2 ^ 10 ≡ 6)
    × (c.word3 / 2 % 2 ≡ 1)
    × (c.word3 % 2 ≡ (if cycle then 1 else 0))

stamp_word :
    (w : ℕ) (cycle : Bool)
    → bit_or (bit_and w 0xfffffffe) (bit cycle) ≡ w % 2 ^ 32 / 2 * 2 + (if cycle then 1 else 0)
stamp_word w true =
    let e = bit_and-run 32 1 w (omega arith) in
    bit_or-add 1 (bit_and w 0xfffffffe) 1 (omega (arith, e)) (omega arith) ∙ omega (arith, e)
stamp_word w false =
    let e = bit_and-run 32 1 w (omega arith) in
    bit_or-add 1 (bit_and w 0xfffffffe) 0 (omega (arith, e)) (omega arith) ∙ omega (arith, e)

stamp-Holds : (t : Trb) (cycle : Bool) → Holds (stamp t cycle) t cycle
unfolding stamp
stamp-Holds t true = (
  refl,
  refl,
  refl,
  omega (arith, stamp_word t.word3 true),
  omega (arith, stamp_word t.word3 true),
)
stamp-Holds t false = (
  refl,
  refl,
  refl,
  omega (arith, stamp_word t.word3 false),
  omega (arith, stamp_word t.word3 false),
)

link-Links :
    (buf : ℕ) (cycle : Bool)
    → buf % 16 ≡ 0
    → buf < 2 ^ 64
    → Links (stamp (link_trb buf) cycle) buf cycle
unfolding stamp link_trb
link-Links buf true h k = (
  omega (arith, h, k),
  omega (arith, stamp_word (6 * 2 ^ 10 + 2) true),
  omega (arith, stamp_word (6 * 2 ^ 10 + 2) true),
  omega (arith, stamp_word (6 * 2 ^ 10 + 2) true),
)
link-Links buf false h k = (
  omega (arith, h, k),
  omega (arith, stamp_word (6 * 2 ^ 10 + 2) false),
  omega (arith, stamp_word (6 * 2 ^ 10 + 2) false),
  omega (arith, stamp_word (6 * 2 ^ 10 + 2) false),
)

same_buf : (t : Bool) (a b : Ring) → a.buf ≡ b.buf → (if t then a else b).buf ≡ b.buf
same_buf true a b e = e
same_buf false a b e = refl

push-buf : (r : Ring) (t : Trb) → (push r t).1.buf ≡ r.buf
unfolding push copy_to_last
push-buf r t = same_buf (add64 r.write_index 1 == r.buf_size - 1) _ _ refl

push_all-buf : (r : Ring) (ts : List Trb) → (push_all r ts).buf ≡ r.buf
unfolding push_all
push_all-buf r [] = refl
push_all-buf r (t ∷ ts) = push_all-buf (push r t).1 ts ∙ push-buf r t

-- A ring of `n` commands and a link at `buf`, after these commands, `laps` times round and some more.
pub record Written (n laps buf : ℕ) (history : List Trb) (r : Ring) : Type 0 where
  pub inside : r.write_index < n
  pub count : length history ≡ laps * n + r.write_index
  pub newest :
      (i : ℕ)
      → i < r.write_index
      → Holds (cell r i) (get_or history (laps * n + i) empty_trb) (lap_bit laps)
  pub older :
      (before i : ℕ)
      → laps ≡ suc before
      → r.write_index ≤ i
      → i < n
      → Holds (cell r i) (get_or history (before * n + i) empty_trb) (lap_bit before)
  pub link : (before : ℕ) → laps ≡ suc before → Links (cell r n) buf (lap_bit before)
  pub bit : r.cycle_bit ≡ lap_bit laps

-- After any commands in turn on a ring of a cell for each of `n` commands and one more, whose address
-- is a multiple of 16 of 64 bits, the newest commands that fit are in their cells, all their words as
-- given but for the cycle bit, which is that of their lap: those of this lap before the write index,
-- those of the lap before from it on. From the second lap on, the last cell is a link to the first
-- one, with the bit of the lap before, that turns the bit. The bit is set in the first lap and turned
-- in each.
pub push_all-Written :
    (n buf : ℕ) (ts : List Trb)
    → 0 < n
    → n < 2 ^ 64 - 1
    → buf % 16 ≡ 0
    → buf < 2 ^ 64
    → (laps : ℕ) × Written n laps buf ts (push_all (fresh buf (suc n)) ts)
push_all-Written n buf ts some small aligned fits =
    let r = push_all (fresh buf (suc n)) ts in
    let (laps, v) = push_all-Recorded n buf ts some small in
    (
      laps,
      record {
        inside = v.inside;
        count = v.count;
        newest = λ i h.
            subst (λ c. Holds c (get_or ts (laps * n + i) empty_trb) (lap_bit laps))
              (sym (v.newest i h)) (stamp-Holds _ (lap_bit laps));
        older = λ before i e h k.
            subst (λ c. Holds c (get_or ts (before * n + i) empty_trb) (lap_bit before))
              (sym (v.older before i e h k)) (stamp-Holds _ (lap_bit before));
        link = λ before e.
            subst (λ c. Links c buf (lap_bit before))
              (sym (
                v.link before e
                ∙ ap (λ a. stamp (link_trb a) (lap_bit before))
                    (push_all-buf (fresh buf (suc n)) ts)))
              (link-Links buf (lap_bit before) aligned fits);
        bit = v.bit;
      },
    )
