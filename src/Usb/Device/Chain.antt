-- ===== src/Usb/Device/Chain.antt =====
-- Descriptors that lie one behind the other, and the search for an interface among them (Kernel/usb/device.cpp).
use mikanos_copy.Common.{
  ℕ, zero, suc, ◌+◌, ◌≤◌, ◌<◌, ◌≡◌, refl, ◌∙◌, Bool, true, false, ◌&&◌, Option, none, some, List,
  [], ◌∷◌, length, ltb, ◌==◌, if◌then◌else◌, arith, Bool-cases, inl, inr,
}
use mikanos_copy.Usb.Descriptor.{Memory, interface_type, has_type, next, next_interface}
use mikanos_copy.Usb.Device.{kind_of}

-- The descriptors behind the one at `p`, each as long as its first byte says, up to `end`.
pub data Chain (mem : Memory) (end : ℕ) : ℕ → List ℕ → Type 0 where
  ends : {p : ℕ} → end ≤ p + mem p → Chain mem end p []
  follows :
      {p : ℕ} {descs : List ℕ}
      → 0 < mem p
      → p + mem p < end
      → Chain mem end (p + mem p) descs
      → Chain mem end p ((p + mem p) ∷ descs)

abbrev pub is_some : {A : Type 0} → Option A → Bool
is_some none = false
is_some (some x) = true

-- The first interface with a driver, and the descriptors behind it.
unfoldable pub first_supported : Memory → List ℕ → Option (ℕ × List ℕ)
first_supported mem [] = none
first_supported mem (desc ∷ descs) =
    if has_type mem interface_type desc && is_some (kind_of mem desc)
    then some (desc, descs)
    else first_supported mem descs

-- A round of `Next` at a chain.
pub next_end : (mem : Memory) (end p : ℕ) → end ≤ p + mem p → next mem end p ≡ (0, p + mem p)
unfolding next
next_end mem end p h = let t : ltb (p + mem p) end ≡ false = ground (arith, h) in rw t refl

pub next_follows :
    (mem : Memory) (end p : ℕ) → p + mem p < end → next mem end p ≡ (p + mem p, p + mem p)
unfolding next
next_follows mem end p h = let t : ltb (p + mem p) end ≡ true = ground (arith, h) in rw t refl

not_null : (p n : ℕ) → 0 < n → (p + n == 0) ≡ false
not_null p n h = ground (arith, h)

-- What `Next<InterfaceDescriptor>` gives at a chain.
pub data Searched (mem : Memory) (end : ℕ) (descs : List ℕ) (r : Option (ℕ × ℕ)) : Type 0 where
  nothing : (q : ℕ) → r ≡ some (0, q) → first_supported mem descs ≡ none → Searched mem end descs r
  interface :
      (desc : ℕ) (behind : List ℕ)
      → r ≡ some (desc, desc)
      → (desc == 0) ≡ false
      → Chain mem end desc behind
      → length behind < length descs
      → first_supported mem descs
        ≡ (if is_some (kind_of mem desc) then some (desc, behind) else first_supported mem behind)
      → Searched mem end descs r

later :
    {mem : Memory} {end : ℕ} {desc : ℕ} {descs : List ℕ} {r : Option (ℕ × ℕ)}
    → first_supported mem (desc ∷ descs) ≡ first_supported mem descs
    → Searched mem end descs r
    → Searched mem end (desc ∷ descs) r
later e (nothing q f none_there) = nothing q f (e ∙ none_there)
later e (interface found behind f t c short there) =
    interface found behind f t c (omega (arith, short)) (e ∙ there)

pub next_interface-Searched :
    (mem : Memory) (end rounds p : ℕ) (descs : List ℕ)
    → Chain mem end p descs
    → length descs < rounds
    → Searched mem end descs (next_interface mem end rounds p)
unfolding next_interface first_supported
next_interface-Searched mem end zero p descs c h = absurd (omega (arith, h))
next_interface-Searched mem end (suc rounds) p [] (ends far) h =
    rw (next_end mem end p far) (nothing (p + mem p) refl refl)
next_interface-Searched mem end (suc rounds) p (desc ∷ descs) (follows some_length near c) h =
    rw (next_follows mem end p near, not_null p (mem p) some_length)
      (elim (Bool-cases (has_type mem interface_type (p + mem p))) [
        | inl t ↦ rw t (
            interface (p + mem p) descs refl (not_null p (mem p) some_length) c (omega arith)
              (rw t refl))
        | inr t ↦ rw t (
            later (rw t refl)
              (next_interface-Searched mem end rounds (p + mem p) descs c (omega (arith, h))))
      ])
