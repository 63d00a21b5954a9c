-- ===== src/Usb/Ring/Tests.antt =====
-- A ring of three commands and a link (Kernel/usb/xhci/ring.cpp).
use mikanos_copy.Common.{ℕ, ◌*◌, ◌^◌, ◌≡◌, refl, true, false, [], ◌∷◌, arith}
use mikanos_copy.Usb.Ring.{Trb, stamp, link_trb, push, push_all, copy_to_last}
use mikanos_copy.Usb.Ring.Laps.{fresh}
use mikanos_copy.Usb.Ring.Words.{Written, push_all-Written}

abbrev command : ℕ → Trb
command n = record { word0 = n; word1 = 0; word2 = 0; word3 = 23 * 2 ^ 10 }

push_all-Written_example :
    (laps : ℕ) × Written 3 laps 4096
      (command 1 ∷ command 2 ∷ command 3 ∷ command 4 ∷ [])
      (push_all (fresh 4096 4) (command 1 ∷ command 2 ∷ command 3 ∷ command 4 ∷ []))
push_all-Written_example =
    push_all-Written 3 4096 (command 1 ∷ command 2 ∷ command 3 ∷ command 4 ∷ []) (omega arith)
      (omega arith) refl (omega arith)

-- The fourth command goes to the first cell again, with the bit turned.
fourth : push_all (fresh 4096 4) (command 1 ∷ command 2 ∷ command 3 ∷ command 4 ∷ []) ≡ record {
  buf = 4096;
  cells =
      command 4 ∷ stamp (command 2) true ∷ stamp (command 3) true ∷ stamp (link_trb 4096) true ∷ [];
  buf_size = 4;
  cycle_bit = false;
  write_index = 1;
}
unfolding push_all push copy_to_last stamp
fourth = refl
