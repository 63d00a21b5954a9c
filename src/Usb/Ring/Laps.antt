-- ===== src/Usb/Ring/Laps.antt =====
-- Where the commands of a ring (Kernel/usb/xhci/ring.cpp) are, and with which bit.
use mikanos_copy.Common.{
  ℕ, zero, suc, ◌+◌, ◌-◌, ◌*◌, ◌^◌, ◌≤◌, ◌<◌, ◌≡◌, ◌≢◌, refl, sym, ap, subst, ◌∙◌, Bool, true,
  false, not, List, [], ◌∷◌, ◌++◌, length, length-append, length-set, get_or, get_or-set_self,
  get_or-set_ne, set, replicate, length-replicate, add64, ◌==◌, arith, ℕ_discrete,
}
use native.Mathlib.Nat.{suc-mul}
use mathlib.Core.List.{append-nil, append_assoc}
use mikanos_copy.Usb.Ring.{Trb, Ring, empty_trb, stamp, copy_to_last, link_trb, push, push_all}

-- The bit of a lap: set in the first, and turned in each.
unfoldable pub lap_bit : ℕ → Bool
lap_bit zero = true
lap_bit (suc laps) = not (lap_bit laps)

abbrev pub cell : Ring → ℕ → Trb
cell r i = get_or r.cells i empty_trb

-- A ring of `n` commands and a link, after these commands, `laps` times round and then some more.
pub record Recorded (n laps : ℕ) (history : List Trb) (r : Ring) : Type 0 where
  pub size : length r.cells ≡ n + 1
  pub bound : r.buf_size ≡ n + 1
  pub inside : r.write_index < n
  pub count : length history ≡ laps * n + r.write_index
  pub bit : r.cycle_bit ≡ lap_bit laps
  -- In this lap the cells before the write index hold the newest commands.
  pub newest :
      (i : ℕ)
      → i < r.write_index
      → cell r i ≡ stamp (get_or history (laps * n + i) empty_trb) (lap_bit laps)
  -- Those behind it are still from the lap before, with the other bit.
  pub older :
      (before i : ℕ)
      → laps ≡ suc before
      → r.write_index ≤ i
      → i < n
      → cell r i ≡ stamp (get_or history (before * n + i) empty_trb) (lap_bit before)
  -- After the first lap the last cell is the link, stamped with the bit of the lap before.
  pub link : (before : ℕ) → laps ≡ suc before → cell r n ≡ stamp (link_trb r.buf) (lap_bit before)

get_or-snoc_old :
    (xs : List Trb) (x : Trb) (i : ℕ)
    → i < length xs
    → get_or (xs ++ x ∷ []) i empty_trb ≡ get_or xs i empty_trb
get_or-snoc_old [] x i h = absurd (omega (arith, h))
get_or-snoc_old (y ∷ xs) x zero h = refl
get_or-snoc_old (y ∷ xs) x (suc i) h = get_or-snoc_old xs x i (omega (arith, h))

get_or-snoc_new :
    (xs : List Trb) (x : Trb) (i : ℕ) → i ≡ length xs → get_or (xs ++ x ∷ []) i empty_trb ≡ x
get_or-snoc_new [] x zero h = refl
get_or-snoc_new [] x (suc i) h = absurd (omega (arith, h))
get_or-snoc_new (y ∷ xs) x zero h = absurd (omega (arith, h))
get_or-snoc_new (y ∷ xs) x (suc i) h = get_or-snoc_new xs x i (omega (arith, h))

-- The ring after a command that does not fill the lap.
stay : Ring → Trb → Ring
stay r t = record r {
  cells = set r.cells r.write_index (stamp t r.cycle_bit);
  write_index = r.write_index + 1;
}

-- And after one that does.
turn : ℕ → Ring → Trb → Ring
turn n r t = record r {
  cells =
      set (set r.cells r.write_index (stamp t r.cycle_bit)) n (stamp (link_trb r.buf) r.cycle_bit);
  write_index = 0;
  cycle_bit = not r.cycle_bit;
}

module _ {n laps : ℕ} {history : List Trb} {r : Ring} (v : Recorded n laps history r)
    (small : n < 2 ^ 64 - 1) (t : Trb) where
  push_stay : r.write_index + 1 < n → (push r t).1 ≡ stay r t
  unfolding push copy_to_last stay
  push_stay h =
      let one : add64 r.write_index 1 ≡ r.write_index + 1 = omega (arith, v.inside, small) in
      let test : (r.write_index + 1 == r.buf_size - 1) ≡ false = ground (arith, v.bound, h) in
      rw one (rw test refl)

  push_turn : r.write_index + 1 ≡ n → (push r t).1 ≡ turn n r t
  unfolding push copy_to_last turn
  push_turn h =
      let one : add64 r.write_index 1 ≡ n = omega (arith, v.inside, small, h) in
      let test : (n == r.buf_size - 1) ≡ true = ground (arith, v.bound) in rw one (rw test refl)

  new_here : get_or (history ++ t ∷ []) (laps * n + r.write_index) empty_trb ≡ t
  new_here = get_or-snoc_new history t (laps * n + r.write_index) (sym v.count)

  longer : length (history ++ t ∷ []) ≡ laps * n + r.write_index + 1
  longer = omega (arith, length-append history (t ∷ []), v.count)

  -- The cell that is written, and another one.
  written : cell (stay r t) r.write_index ≡ stamp t r.cycle_bit
  unfolding stay
  written =
      get_or-set_self r.cells r.write_index (stamp t r.cycle_bit) empty_trb
        (omega (arith, v.size, v.inside))

  untouched : (i : ℕ) → r.write_index ≢ i → cell (stay r t) i ≡ cell r i
  unfolding stay
  untouched i ne = get_or-set_ne r.cells r.write_index i (stamp t r.cycle_bit) empty_trb ne

  newest_now :
      (i : ℕ)
      → i ≤ r.write_index
      → cell (stay r t) i
        ≡ stamp (get_or (history ++ t ∷ []) (laps * n + i) empty_trb) (lap_bit laps)
  newest_now i h = elim (ℕ_discrete r.write_index i) [
    | yes e ↦
        subst
          (λ k.
            cell (stay r t) k
            ≡ stamp (get_or (history ++ t ∷ []) (laps * n + k) empty_trb) (lap_bit laps))
          e (written ∙ ap (stamp t) v.bit ∙ ap (λ x. stamp x (lap_bit laps)) (sym new_here))
    | no ne ↦
        untouched i ne
        ∙ v.newest i (omega (arith, h, ne))
        ∙ ap (λ x. stamp x (lap_bit laps))
            (sym (get_or-snoc_old history t (laps * n + i) (omega (arith, v.count, h, ne))))
  ]

  older_now :
      (before i : ℕ)
      → laps ≡ suc before
      → r.write_index < i
      → i < n
      → cell (stay r t) i
        ≡ stamp (get_or (history ++ t ∷ []) (before * n + i) empty_trb) (lap_bit before)
  older_now before i e above h =
      untouched i (omega (arith, above))
      ∙ v.older before i e (omega (arith, above)) h
      ∙ ap (λ x. stamp x (lap_bit before))
          (sym (
            get_or-snoc_old history t (before * n + i)
              (omega (arith, v.count, h, suc-mul before n, ap (λ k. k * n) e))))

  stay-Recorded : r.write_index + 1 < n → Recorded n laps (history ++ t ∷ []) (stay r t)
  unfolding stay
  stay-Recorded h = record {
    size = length-set r.cells r.write_index (stamp t r.cycle_bit) ∙ v.size;
    bound = v.bound;
    inside = h;
    count = omega (arith, longer);
    bit = v.bit;
    newest = λ i below. newest_now i (omega (arith, below));
    older = λ before i e above. older_now before i e (omega (arith, above));
    link = λ before e. untouched n (omega (arith, h)) ∙ v.link before e;
  }

  full : cell (turn n r t) n ≡ stamp (link_trb r.buf) r.cycle_bit
  unfolding turn stay
  full =
      get_or-set_self (stay r t).cells n (stamp (link_trb r.buf) r.cycle_bit) empty_trb
        (omega (arith, length-set r.cells r.write_index (stamp t r.cycle_bit), v.size))

  same_cell : (i : ℕ) → n ≢ i → cell (turn n r t) i ≡ cell (stay r t) i
  unfolding turn stay
  same_cell i ne =
      get_or-set_ne (set r.cells r.write_index (stamp t r.cycle_bit)) n i
        (stamp (link_trb r.buf) r.cycle_bit) empty_trb ne

  turn-Recorded : r.write_index + 1 ≡ n → Recorded n (suc laps) (history ++ t ∷ []) (turn n r t)
  unfolding turn lap_bit
  turn-Recorded h = record {
    size =
        length-set (set r.cells r.write_index (stamp t r.cycle_bit)) n
          (stamp (link_trb r.buf) r.cycle_bit)
        ∙ length-set r.cells r.write_index (stamp t r.cycle_bit)
        ∙ v.size;
    bound = v.bound;
    inside = omega (arith, h);
    count = omega (arith, longer, h, suc-mul laps n);
    bit = ap not v.bit;
    newest = λ i below. absurd (omega (arith, below));
    older = λ before i e above below.
        let same : laps ≡ before = omega (arith, e) in
        same_cell i (omega (arith, below))
        ∙ subst
            (λ k.
              cell (stay r t) i
              ≡ stamp (get_or (history ++ t ∷ []) (k * n + i) empty_trb) (lap_bit k))
            same (newest_now i (omega (arith, below, h)));
    link = λ before e.
        let same : laps ≡ before = omega (arith, e) in
        full ∙ ap (stamp (link_trb r.buf)) (v.bit ∙ ap lap_bit same);
  }

-- A ring that `Initialize` has set up at an address.
abbrev pub fresh : ℕ → ℕ → Ring
fresh buf buf_size = record {
  buf = buf;
  cells = replicate buf_size empty_trb;
  buf_size = buf_size;
  cycle_bit = true;
  write_index = 0;
}

fresh-Recorded : (n buf : ℕ) → 0 < n → Recorded n 0 [] (fresh buf (suc n))
unfolding lap_bit
fresh-Recorded n buf h = record {
  size = omega (arith, length-replicate n empty_trb);
  bound = omega arith;
  inside = h;
  count = omega arith;
  bit = refl;
  newest = λ i below. absurd (omega (arith, below));
  older = λ before i e. absurd (omega (arith, e));
  link = λ before e. absurd (omega (arith, e));
}

push-Recorded :
    {n laps : ℕ} {history : List Trb} {r : Ring}
    → Recorded n laps history r
    → n < 2 ^ 64 - 1
    → (t : Trb) → (laps' : ℕ) × Recorded n laps' (history ++ t ∷ []) (push r t).1
push-Recorded {n = n} {laps = laps} {r = r} v small t = elim (ℕ_discrete (r.write_index + 1) n) [
  | yes e ↦ (suc laps, rw (push_turn v small t e) (turn-Recorded v small t e))
  | no ne ↦
      let h : r.write_index + 1 < n = omega (arith, ne, v.inside) in
      (laps, rw (push_stay v small t h) (stay-Recorded v small t h))
]

pushes-Recorded :
    (ts : List Trb) {n laps : ℕ} {history : List Trb} {r : Ring}
    → Recorded n laps history r
    → n < 2 ^ 64 - 1
    → (laps' : ℕ) × Recorded n laps' (history ++ ts) (push_all r ts)
unfolding push_all
pushes-Recorded [] {n = n} {laps = laps} {history = history} {r = r} v small =
    (laps, rw (append-nil history) v)
pushes-Recorded (t ∷ ts) {n = n} {laps = laps} {history = history} {r = r} v small =
    let (laps', v') = push-Recorded v small t in
    let (last, w) = pushes-Recorded ts v' small in
    (
      last,
      subst (λ xs. Recorded n last xs (push_all (push r t).1 ts)) (append_assoc history (t ∷ []) ts)
          w,
    )

-- After any commands in turn on a ring that is set up, the newest that fit are in their cells, each
-- with the bit of its lap: those of this lap before the write index, those of the lap before from it
-- on. The last cell links back, and turns the bit.
pub push_all-Recorded :
    (n buf : ℕ) (ts : List Trb)
    → 0 < n
    → n < 2 ^ 64 - 1
    → (laps : ℕ) × Recorded n laps ts (push_all (fresh buf (suc n)) ts)
push_all-Recorded n buf ts h small = pushes-Recorded ts (fresh-Recorded n buf h) small
