-- ===== src/Pci/Table.antt =====
-- The table of devices that a scan of the PCI buses (Kernel/pci.cpp) fills: what is in it is present,
-- and what is present is in it.
use mathlib.Core.List.{append-nil, append_assoc}
use mikanos_copy.Common.{
  ℕ, ◌+◌, ◌≤◌, ◌<◌, ◌≡◌, ◌≢◌, ◌⊎◌, refl, sym, subst, ap, ◌∙◌, Bool, true, false, some, List, [],
  ◌∷◌, ◌++◌, length, length-append, ◌==◌, if◌then◌else◌, arith, Bool-cases, inl, inr,
}
use mikanos_copy.Common.Fields.{field}
use mikanos_copy.Error.{Error}
use mikanos_copy.Pci.{
  Device, max_devices, Scanning, and_then, match_class, is_single_function_device, read_vendor_id,
  read_header_type, read_class_code, read_bus_numbers,
}

-- The table has the function of the device on the bus.
unfoldable pub HasFunction : List Device → (bus device function : ℕ) → Type 0
HasFunction [] bus device function = ⊥
HasFunction (d ∷ ds) bus device function =
    ((d.bus ≡ bus) × (d.device ≡ device) × (d.function ≡ function))
    ⊎ HasFunction ds bus device function

HasFunction-append :
    (xs ys : List Device) (bus device function : ℕ)
    → HasFunction xs bus device function
    → HasFunction (xs ++ ys) bus device function
unfolding HasFunction
HasFunction-append [] ys b d f nothing = elim nothing [ ]
HasFunction-append (x ∷ xs) ys b d f (inl here) = inl here
HasFunction-append (x ∷ xs) ys b d f (inr there) = inr (HasFunction-append xs ys b d f there)

pub HasFunction-last :
    (xs : List Device) (d : Device) → HasFunction (xs ++ d ∷ []) d.bus d.device d.function
unfolding HasFunction
HasFunction-last [] d = inl (refl, refl, refl)
HasFunction-last (x ∷ xs) d = inr (HasFunction-last xs d)

-- What a table has, a longer one has.
unfoldable pub Grows : (List Device → Type 0) → Type 0
Grows P = (xs ys : List Device) → P xs → P (xs ++ ys)

pub Grows-HasFunction : (bus device function : ℕ) → Grows (λ t. HasFunction t bus device function)
unfolding Grows
Grows-HasFunction b d f xs ys h = HasFunction-append xs ys b d f h

module _ (config : ℕ → ℕ) where
  -- Each of the devices answers, and its header type and class are those that were read.
  abbrev pub IsPresent : Device → Type 0
  IsPresent d =
      (read_vendor_id config d.bus d.device d.function ≢ 0xffff)
      × (d.header_type ≡ read_header_type config d.bus d.device d.function)
      × (d.class_code ≡ read_class_code config d.bus d.device d.function)

  abbrev pub AllPresent : List Device → Type 0
  AllPresent [] = Unit {0}
  AllPresent (d ∷ ds) = IsPresent d × AllPresent ds

  AllPresent-append : (xs ys : List Device) → AllPresent xs → AllPresent ys → AllPresent (xs ++ ys)
  AllPresent-append [] ys p q = q
  AllPresent-append (x ∷ xs) ys p q = (p.0, AllPresent-append xs ys p.1 q)

  -- The table has each of the functions from `first` on, before `last`, that answers.
  abbrev pub HasFunctions : List Device → (bus device first last : ℕ) → Type 0
  HasFunctions t bus device first last =
      (function : ℕ)
      → first ≤ function
      → function < last
      → read_vendor_id config bus device function ≢ 0xffff
      → HasFunction t bus device function

  -- The table has function 0 of the device and, when the device has several, all of its eight that
  -- answer.
  unfoldable pub HasDevice : List Device → (bus device : ℕ) → Type 0
  HasDevice t bus device =
      HasFunction t bus device 0
      × (is_single_function_device (read_header_type config bus device 0) ≡ false
          → HasFunctions t bus device 1 8)

  -- The table has each of the devices from `first` on, before `last`, that answers.
  abbrev pub HasDevices : List Device → (bus first last : ℕ) → Type 0
  HasDevices t bus first last =
      (device : ℕ)
      → first ≤ device
      → device < last
      → read_vendor_id config bus device 0 ≢ 0xffff
      → HasDevice t bus device

  -- The table has the 32 devices of a bus, as far as they answer.
  unfoldable pub HasBus : List Device → (bus : ℕ) → Type 0
  HasBus t bus = HasDevices t bus 0 32

  -- The bus behind each of the devices that is a bridge between PCI buses.
  abbrev pub secondary : Device → ℕ
  secondary d = field 8 8 (read_bus_numbers config d.bus d.device d.function)

  abbrev pub HasBehind : List Device → Device → Type 0
  HasBehind t d = match_class d.class_code 0x06 0x04 ≡ true → HasBus t (secondary d)

  abbrev pub HasBehindAll : List Device → List Device → Type 0
  HasBehindAll t [] = Unit {0}
  HasBehindAll t (d ∷ ds) = HasBehind t d × HasBehindAll t ds

  pub Grows-HasDevice : (bus device : ℕ) → Grows (λ t. HasDevice t bus device)
  unfolding Grows HasDevice
  Grows-HasDevice b d xs ys (zeroth, others) = (
    HasFunction-append xs ys b d 0 zeroth,
    λ several f from to there. HasFunction-append xs ys b d f (others several f from to there),
  )

  pub Grows-HasBus : (bus : ℕ) → Grows (λ t. HasBus t bus)
  unfolding Grows HasBus
  Grows-HasBus b xs ys h d from to there = Grows-HasDevice b d xs ys (h d from to there)

  HasBehindAll-longer : (xs ys ds : List Device) → HasBehindAll xs ds → HasBehindAll (xs ++ ys) ds
  unfolding Grows
  HasBehindAll-longer xs ys [] h = tt
  HasBehindAll-longer xs ys (d ∷ ds) (here, rest) =
      (λ bridge. Grows-HasBus (secondary d) xs ys (here bridge), HasBehindAll-longer xs ys ds rest)

  HasBehindAll-append :
      (t xs ys : List Device) → HasBehindAll t xs → HasBehindAll t ys → HasBehindAll t (xs ++ ys)
  HasBehindAll-append t [] ys p q = q
  HasBehindAll-append t (x ∷ xs) ys p q = (p.0, HasBehindAll-append t xs ys p.1 q)

  -- A scan that gave a result. It only adds devices that are present, and fails only on a full table.
  -- When it succeeds, the table has what was to be scanned, and the buses behind the bridges it added.
  pub record Scanned (has : List Device → Type 0) (devices : List Device) (r : Scanning)
      : Type 0 where
    pub err : Error
    pub after : List Device
    pub new : List Device
    pub ran : r ≡ some (err, after)
    pub added : after ≡ devices ++ new
    pub room : length after ≤ max_devices
    pub stops : (err ≡ Error.success) ⊎ ((err ≡ Error.full) × (length after ≡ max_devices))
    pub present : AllPresent new
    pub complete : err ≡ Error.success → has after × HasBehindAll after new

  -- A scan of nothing.
  pub unchanged :
      (has : List Device → Type 0) (devices : List Device)
      → length devices ≤ max_devices
      → has devices
      → Scanned has devices (some (Error.success, devices))
  unchanged has devices h there = record {
    err = Error.success;
    after = devices;
    new = [];
    ran = refl;
    added = sym (append-nil devices);
    room = h;
    stops = inl refl;
    present = tt;
    complete = λ e. (there, tt);
  }

  -- What is said of the table, said in another way.
  pub restated :
      {has : List Device → Type 0} (has' : List Device → Type 0) {devices : List Device}
      {r : Scanning}
      → ((t : List Device) → has t → has' t)
      → Scanned has devices r
      → Scanned has' devices r
  restated has' f s = record {
    err = s.err;
    after = s.after;
    new = s.new;
    ran = s.ran;
    added = s.added;
    room = s.room;
    stops = s.stops;
    present = s.present;
    complete = λ e. let (there, behind) = s.complete e in (f s.after there, behind);
  }

  -- A table that is full.
  pub table_full :
      (has : List Device → Type 0) (devices : List Device)
      → length devices ≡ max_devices
      → Scanned has devices (some (Error.full, devices))
  table_full has devices h = record {
    err = Error.full;
    after = devices;
    new = [];
    ran = refl;
    added = sym (append-nil devices);
    room = omega (arith, h);
    stops = inr (refl, h);
    present = tt;
    complete = λ e. absurd (ground (arith, e));
  }

  -- A device that is added before the rest, with the bus behind it in the rest.
  pub one_more :
      {has : List Device → Type 0} (devices : List Device) (d : Device) (r : Scanning)
      → IsPresent d
      → ((t : List Device) → has t → HasBehind t d)
      → Scanned has (devices ++ d ∷ []) r
      → Scanned (λ t. HasFunction t d.bus d.device d.function) devices r
  one_more devices d r p behind s = record {
    err = s.err;
    after = s.after;
    new = d ∷ s.new;
    ran = s.ran;
    added = s.added ∙ append_assoc devices (d ∷ []) s.new;
    room = s.room;
    stops = s.stops;
    present = (p, s.present);
    complete = λ e.
        let (there, others) = s.complete e in
        (
          subst (λ t. HasFunction t d.bus d.device d.function) (sym s.added)
              (HasFunction-append (devices ++ d ∷ []) s.new d.bus d.device d.function
                (HasFunction-last devices d)),
          (behind s.after there, others),
        );
  }

  -- One scan after another.
  pub Scanned-and_then :
      {has has' : List Device → Type 0} (devices : List Device) (r : Scanning)
      (k : List Device → Scanning)
      → Grows has
      → (s : Scanned has devices r)
      → (length devices ≤ length s.after → Scanned has' s.after (k s.after))
      → Scanned (λ t. has t × has' t) devices (and_then r k)
  unfolding Grows
  Scanned-and_then {has = has} devices r k grows s rest = elim s.stops [
    | inr (full, size) ↦ rw s.ran (
        rw full (record {
          err = Error.full;
          after = s.after;
          new = s.new;
          ran = refl;
          added = s.added;
          room = s.room;
          stops = inr (refl, size);
          present = s.present;
          complete = λ e. absurd (ground (arith, e));
        }))
    | inl success ↦
        let longer : length s.after ≡ length devices + length s.new =
          ap length s.added ∙ length-append devices s.new in
        let t = rest (omega (arith, longer)) in
        rw s.ran (
          rw success (record {
            err = t.err;
            after = t.after;
            new = s.new ++ t.new;
            ran = t.ran;
            added = t.added ∙ ap (λ xs. xs ++ t.new) s.added ∙ append_assoc devices s.new t.new;
            room = t.room;
            stops = t.stops;
            present = AllPresent-append s.new t.new s.present t.present;
            complete = λ e.
                let (first, behind) = s.complete success in
                let (second, behind') = t.complete e in
                (
                  (subst has (sym t.added) (grows s.after t.new first), second),
                  HasBehindAll-append t.after s.new t.new
                      (subst (λ u. HasBehindAll u s.new) (sym t.added)
                        (HasBehindAll-longer s.after t.new s.new behind))
                      behind',
                );
          }))
  ]

  -- A function, or a device, that may be missing.
  pub if_present :
      (has : List Device → Type 0) (v : ℕ) (devices : List Device) (r : Scanning)
      → length devices ≤ max_devices
      → (v ≢ 0xffff → Scanned has devices r)
      → Scanned
          (λ t. v ≢ 0xffff → has t)
          devices
          (if v == 0xffff then some (Error.success, devices) else r)
  if_present has v devices r h s = elim (Bool-cases (v == 0xffff)) [
    | inl missing ↦ rw missing (
        unchanged (λ t. v ≢ 0xffff → has t) devices h
          (λ there. absurd (there (ground (arith, missing)))))
    | inr there ↦
        rw there
          (restated (λ t. v ≢ 0xffff → has t) (λ t has_it _. has_it) (s (ground (arith, there))))
  ]

  -- One scan or another.
  pub by_test :
      (b : Bool) {has has' : List Device → Type 0} {devices : List Device} {r r' : Scanning}
      → (b ≡ true → Scanned has devices r)
      → (b ≡ false → Scanned has' devices r')
      → Scanned (λ t. (b ≡ true → has t) × (b ≡ false → has' t)) devices (if b then r else r')
  by_test true {has = has} {has' = has'} s s' =
      restated (λ t. (true ≡ true → has t) × (true ≡ false → has' t))
        (λ t there. (λ _. there, λ e. absurd (ground (arith, e)))) (s refl)
  by_test false {has = has} {has' = has'} s s' =
      restated (λ t. (false ≡ true → has t) × (false ≡ false → has' t))
        (λ t there. (λ e. absurd (ground (arith, e)), λ _. there)) (s' refl)
