-- ===== src/FrameBuffer/Lines.antt =====
-- Lines of bytes that are copied one after the other (Kernel/frame_buffer.cpp). A position is given by
-- the start of its line, and by how far it is behind it.
use mikanos_copy.Common.{
  ℕ, zero, suc, ◌+◌, ◌-◌, ◌*◌, ◌≤◌, ◌<◌, ◌≡◌, refl, sym, ap, ◌∙◌, true, false, ◌&&◌, ltb, leb,
  if◌then◌else◌, arith, dec_lt, ℕ_discrete,
}
use mikanos_copy.FrameBuffer.{memcpy, copy_lines, move_down, move_up}

-- The start of the line `k` lines on.
unfoldable pub line_at : (base line k : ℕ) → ℕ
line_at base line zero = base
line_at base line (suc k) = line_at (base + line) line k

pub line_at_lem : (base line k : ℕ) → line_at base line k ≡ base + line * k
unfolding line_at
line_at_lem base line zero = omega arith
line_at_lem base line (suc k) = omega (arith, line_at_lem (base + line) line k)

line_at_next : (base line k : ℕ) → line_at base line (suc k) ≡ line_at base line k + line
line_at_next base line k = omega (arith, line_at_lem base line (suc k), line_at_lem base line k)

-- A later line starts behind the end of an earlier one.
line_at_lt : (base line k r : ℕ) → k < r → line_at base line k + line ≤ line_at base line r
line_at_lt base line k zero h = absurd (omega (arith, h))
line_at_lt base line k (suc r) h = elim (ℕ_discrete k r) [
  | yes e ↦ omega (arith, line_at_next base line r, ap (line_at base line) e)
  | no apart ↦
      omega (arith, line_at_lt base line k r (omega (arith, h, apart)), line_at_next base line r)
]

line_at_from : (base line k : ℕ) → base ≤ line_at base line k
line_at_from base line k = omega (arith, line_at_lem base line k)

line_at_le : (a b line k : ℕ) → a ≤ b → line_at a line k ≤ line_at b line k
line_at_le a b line k h = omega (arith, h, line_at_lem a line k, line_at_lem b line k)

pub memcpy_in :
    (to from : ℕ → ℕ) (dst src n o : ℕ)
    → o < n
    → memcpy to from dst src n (dst + o) ≡ from (src + o)
unfolding memcpy
memcpy_in to from dst src n o h =
    let inside : (leb dst (dst + o) && ltb (dst + o) (dst + n)) ≡ true = ground (arith, h) in
    rw inside (ap (λ k. from (src + k)) (back dst o))
  where
    back : (a b : ℕ) → a + b - a ≡ b
    back a b = omega arith

pub memcpy_before :
    (to from : ℕ → ℕ) (dst src n a : ℕ) → a < dst → memcpy to from dst src n a ≡ to a
unfolding memcpy
memcpy_before to from dst src n a h = ground (arith, h)

pub memcpy_behind :
    (to from : ℕ → ℕ) (dst src n a : ℕ) → dst + n ≤ a → memcpy to from dst src n a ≡ to a
unfolding memcpy
memcpy_behind to from dst src n a h = ground (arith, h)

-- One line, at a position of it.
memcpy_line :
    (to from : ℕ → ℕ) (dst src n o : ℕ)
    → memcpy to from dst src n (dst + o) ≡ (if ltb o n then from (src + o) else to (dst + o))
memcpy_line to from dst src n o = elim (dec_lt o n) [
  | yes h ↦ let t : ltb o n ≡ true = ground (arith, h) in rw t (memcpy_in to from dst src n o h)
  | no h ↦
      let t : ltb o n ≡ false = ground (arith, h) in
      rw t (memcpy_behind to from dst src n (dst + o) (omega (arith, h)))
]

never : (k : ℕ) → ltb k 0 ≡ false
never k = ground arith

ltb_first : (n : ℕ) → ltb 0 (suc n) ≡ true
ltb_first n = ground arith

ltb-suc : (k n : ℕ) → ltb (suc k) (suc n) ≡ ltb k n
ltb-suc k n = ground arith

module _ (n dst_line src_line : ℕ) (from : ℕ → ℕ) where
  pub copy_lines_before :
      (rounds : ℕ) (to : ℕ → ℕ) (dst src a : ℕ)
      → a < dst
      → copy_lines rounds n dst_line src_line to from dst src a ≡ to a
  unfolding copy_lines
  copy_lines_before zero to dst src a h = refl
  copy_lines_before (suc rounds) to dst src a h =
      copy_lines_before rounds (memcpy to from dst src n) (dst + dst_line) (src + src_line) a
        (omega (arith, h))
      ∙ memcpy_before to from dst src n a h

  -- What `Copy` leaves in line `k`: the first `n` bytes of the lines that are copied are new.
  pub copy_lines_lem :
      (rounds k o : ℕ) (to : ℕ → ℕ) (dst src : ℕ)
      → n ≤ dst_line
      → o < dst_line
      → copy_lines rounds n dst_line src_line to from dst src (line_at dst dst_line k + o) ≡ (
          if ltb k rounds && ltb o n
          then from (line_at src src_line k + o)
          else to (line_at dst dst_line k + o))
  unfolding copy_lines line_at
  copy_lines_lem zero k o to dst src fits inside = rw (never k) refl
  copy_lines_lem (suc rounds) zero o to dst src fits inside = rw (ltb_first rounds) (
      copy_lines_before rounds (memcpy to from dst src n) (dst + dst_line) (src + src_line)
        (dst + o) (omega (arith, inside))
      ∙ memcpy_line to from dst src n o)
  copy_lines_lem (suc rounds) (suc k) o to dst src fits inside =
      let later =
        memcpy_behind to from dst src n (line_at (dst + dst_line) dst_line k + o)
          (omega (arith, fits, line_at_from (dst + dst_line) dst_line k)) in
      rw (ltb-suc k rounds) (
        copy_lines_lem rounds k o (memcpy to from dst src n) (dst + dst_line) (src + src_line) fits
          inside
        ∙ ap
            (λ old.
              if ltb k rounds && ltb o n
              then from (line_at (src + src_line) src_line k + o)
              else old)
            later)

module _ (n line : ℕ) where
  pub move_down_before :
      (rounds : ℕ) (m : ℕ → ℕ) (dst src a : ℕ) → a < dst → move_down rounds n line m dst src a ≡ m a
  unfolding move_down
  move_down_before zero m dst src a h = refl
  move_down_before (suc rounds) m dst src a h =
      move_down_before rounds (memcpy m m dst src n) (dst + line) (src + line) a (omega (arith, h))
      ∙ memcpy_before m m dst src n a h

  -- Lines that move to lower positions, from the first on, are those that stood there before.
  pub move_down_lem :
      (rounds k o : ℕ) (m : ℕ → ℕ) (dst src : ℕ)
      → n ≤ line
      → o < line
      → dst ≤ src
      → move_down rounds n line m dst src (line_at dst line k + o) ≡ (
          if ltb k rounds && ltb o n
          then m (line_at src line k + o)
          else m (line_at dst line k + o))
  unfolding move_down line_at
  move_down_lem zero k o m dst src fits inside down = rw (never k) refl
  move_down_lem (suc rounds) zero o m dst src fits inside down = rw (ltb_first rounds) (
      move_down_before rounds (memcpy m m dst src n) (dst + line) (src + line) (dst + o)
        (omega (arith, inside))
      ∙ memcpy_line m m dst src n o)
  move_down_lem (suc rounds) (suc k) o m dst src fits inside down =
      let old =
        memcpy_behind m m dst src n (line_at (dst + line) line k + o)
          (omega (arith, fits, line_at_from (dst + line) line k)) in
      let new =
        memcpy_behind m m dst src n (line_at (src + line) line k + o)
          (omega (arith, fits, down, line_at_from (src + line) line k)) in
      rw (ltb-suc k rounds) (
        move_down_lem rounds k o (memcpy m m dst src n) (dst + line) (src + line) fits inside
          (omega (arith, down))
        ∙ ap
            (λ x.
              if ltb k rounds && ltb o n
              then x
              else memcpy m m dst src n (line_at (dst + line) line k + o))
            new
        ∙ ap (λ x. if ltb k rounds && ltb o n then m (line_at (src + line) line k + o) else x) old)

  -- A copy to line `r`, read at line `k`.
  line_same :
      (m : ℕ → ℕ) (dst src d s k r o : ℕ)
      → d ≡ line_at dst line r
      → s ≡ line_at src line r
      → k ≡ r
      → memcpy m m d s n (line_at dst line k + o)
        ≡ (if ltb o n then m (line_at src line k + o) else m (line_at dst line k + o))
  line_same m dst src d s k r o e f same =
      let here : line_at dst line k ≡ d = ap (line_at dst line) same ∙ sym e in
      let there : s ≡ line_at src line k = f ∙ ap (line_at src line) (sym same) in
      ap (λ a. memcpy m m d s n (a + o)) here
      ∙ memcpy_line m m d s n o
      ∙ ap (λ a. if ltb o n then m (a + o) else m (d + o)) there
      ∙ ap (λ a. if ltb o n then m (line_at src line k + o) else m (a + o)) (sym here)

  -- Lines that move to higher positions, from the last up, are those that stood there before.
  pub move_up_lem :
      (rounds k o : ℕ) (m : ℕ → ℕ) (dst src d s : ℕ)
      → n ≤ line
      → o < line
      → src ≤ dst
      → d ≡ line_at dst line rounds
      → s ≡ line_at src line rounds
      → move_up (suc rounds) n line m d s (line_at dst line k + o) ≡ (
          if ltb k (suc rounds) && ltb o n
          then m (line_at src line k + o)
          else m (line_at dst line k + o))
  unfolding move_up
  move_up_lem zero k o m dst src d s fits inside up e f = elim (ℕ_discrete k 0) [
    | yes first ↦
        let t : ltb k 1 ≡ true = ground (arith, first) in
        rw t (line_same m dst src d s k 0 o e f first)
    | no later ↦
        let t : ltb k 1 ≡ false = ground (arith, later) in
        rw t (
          memcpy_behind m m d s n (line_at dst line k + o)
            (omega (arith, fits, e, line_at_lt dst line 0 k (omega (arith, later)))))
  ]
  move_up_lem (suc rounds) k o m dst src d s fits inside up e f =
      let m1 = memcpy m m d s n in
      let rest =
        move_up_lem rounds k o m1 dst src (d - line) (s - line) fits inside up
          (omega (arith, e, line_at_next dst line rounds))
          (omega (arith, f, line_at_next src line rounds)) in
      elim (dec_lt k (suc rounds)) [
        | yes before ↦
            let t : ltb k (suc rounds) ≡ true = ground (arith, before) in
            let t' : ltb k (suc (suc rounds)) ≡ true = ground (arith, before) in
            let old =
              memcpy_before m m d s n (line_at dst line k + o)
                (omega (arith, inside, e, line_at_lt dst line k (suc rounds) before)) in
            let new = memcpy_before m m d s n (line_at src line k + o) (
              omega (
                arith,
                inside,
                e,
                up,
                line_at_lt src line k (suc rounds) before,
                line_at_le src dst line (suc rounds) up,
              )) in
            rest
            ∙ rw (t, t')
                (ap (λ x. if ltb o n then x else m1 (line_at dst line k + o)) new
                  ∙ ap (λ x. if ltb o n then m (line_at src line k + o) else x) old)
        | no not_before ↦
            let t : ltb k (suc rounds) ≡ false = ground (arith, not_before) in
            elim (ℕ_discrete k (suc rounds)) [
              | yes last ↦
                  let t' : ltb k (suc (suc rounds)) ≡ true = ground (arith, last) in
                  rest ∙ rw (t, t') (line_same m dst src d s k (suc rounds) o e f last)
              | no behind ↦
                  let t' : ltb k (suc (suc rounds)) ≡ false = ground (arith, behind, not_before) in
                  rest
                  ∙ rw (t, t')
                      (memcpy_behind m m d s n (line_at dst line k + o) (
                        omega (
                          arith,
                          fits,
                          e,
                          line_at_lt dst line (suc rounds) k (omega (arith, behind, not_before)),
                        )))
            ]
      ]

  pub move_up_before :
      (rounds : ℕ) (m : ℕ → ℕ) (dst d s a : ℕ)
      → d ≡ line_at dst line rounds
      → a < dst
      → move_up (suc rounds) n line m d s a ≡ m a
  unfolding move_up
  move_up_before zero m dst d s a e h =
      memcpy_before m m d s n a (omega (arith, h, e, line_at_from dst line 0))
  move_up_before (suc rounds) m dst d s a e h =
      move_up_before rounds (memcpy m m d s n) dst (d - line) (s - line) a
        (omega (arith, e, line_at_next dst line rounds)) h
      ∙ memcpy_before m m d s n a (omega (arith, h, e, line_at_from dst line (suc rounds)))
