-- ===== src/Usb/Ring.antt =====
-- The class `Ring` of Kernel/usb/xhci/ring.hpp and Kernel/usb/xhci/ring.cpp: commands for the
-- controller in a circular array, whose last cell links back to the first. A bit in each command
-- says in which lap it was written.
pub mod Laps
pub mod Words
mod Tests
use Prim.Native.Nat.{bit_and, bit_or}
use mikanos_copy.Common.{
  ℕ, zero, suc, ◌+◌, ◌-◌, ◌*◌, ◌/◌, ◌%◌, ◌^◌, Bool, true, false, not, List, [], ◌∷◌, set, replicate,
  add64, ◌==◌, if◌then◌else◌,
}
use mikanos_copy.Error.{Error}
use mikanos_copy.Usb.Pool.{Pool, alloc_array, free_mem}

-- `TRB`, as its four words of 32 bits.
pub record Trb : Type 0 where
  pub word0 : ℕ
  pub word1 : ℕ
  pub word2 : ℕ
  pub word3 : ℕ

abbrev pub empty_trb : Trb
empty_trb = record { word0 = 0; word1 = 0; word2 = 0; word3 = 0 }

-- A `bool` as a number.
abbrev pub bit : Bool → ℕ
bit true = 1
bit false = 0

-- `buf` is the address of the array, 0 before `initialize`, and `cells` what it holds.
pub record Ring : Type 0 where
  pub buf : ℕ
  pub cells : List Trb
  pub buf_size : ℕ
  pub cycle_bit : Bool
  pub write_index : ℕ

pub initialize : Ring → Pool → ℕ → Error × Ring × Pool
initialize r pool buf_size =
    let freed = if r.buf == 0 then pool else free_mem pool r.buf in
    let (buf, pool') = alloc_array freed 16 buf_size 64 (64 * 1024) in
    let r' : Ring = record {
      buf = buf;
      cells = [];
      buf_size = buf_size;
      cycle_bit = true;
      write_index = 0;
    } in
    if buf == 0
    then (Error.no_enough_memory, r', pool')
    else (Error.success, record r' { cells = replicate buf_size empty_trb }, pool')

-- The command with the bit of the lap.
pub stamp : Trb → Bool → Trb
stamp t cycle = record t { word3 = bit_or (bit_and t.word3 0xfffffffe) (bit cycle) }

-- A write out of bounds, which the code does not make, changes nothing here.
pub copy_to_last : Ring → Trb → Ring
copy_to_last r t = record r { cells = set r.cells r.write_index (stamp t r.cycle_bit) }

-- `LinkTRB{buf_}` with `toggle_cycle`: type 6 in bits 10 to 15 of the last word, and bit 1.
pub link_trb : ℕ → Trb
link_trb segment = record {
  word0 = segment / 16 * 16 % 2 ^ 32;
  word1 = segment / 2 ^ 32 % 2 ^ 32;
  word2 = 0;
  word3 = 6 * 2 ^ 10 + 2;
}

-- The position of the command that was written is given with the ring.
pub push : Ring → Trb → ℕ × Ring
push r t =
    let written = copy_to_last r t in
    let moved = record written { write_index = add64 r.write_index 1 } in
    let linked = copy_to_last moved (link_trb r.buf) in
    (
      r.write_index,
      if moved.write_index == r.buf_size - 1
          then record linked { write_index = 0; cycle_bit = not r.cycle_bit }
          else moved,
    )

-- Commands in order.
unfoldable pub push_all : Ring → List Trb → Ring
push_all r [] = r
push_all r (t ∷ ts) = push_all (push r t).1 ts
