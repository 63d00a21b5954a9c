-- ===== src/Fat.antt =====
-- The FAT file system of Kernel/fat.hpp and Kernel/fat.cpp: the chain of clusters of a file, and how
-- it is read. The volume image is a function from offsets to bytes; an address is an offset in it.
pub mod Chain
pub mod Find
pub mod Named
pub mod Directory
mod Tests
use mikanos_copy.Common.{
  ℕ, zero, suc, ◌+◌, ◌-◌, ◌*◌, ◌^◌, ◌%◌, Bool, true, false, not, ◌&&◌, Option, none, some, List, [],
  ◌∷◌, ◌++◌, leb, ◌==◌, if◌then◌else◌,
}

-- The fields of `BPB` that the code reads, and the image.
pub record Volume : Type 0 where
  pub bytes_per_sector : ℕ
  pub sectors_per_cluster : ℕ
  pub reserved_sector_count : ℕ
  pub num_fats : ℕ
  pub fat_size_32 : ℕ
  pub root_cluster : ℕ
  pub byte : ℕ → ℕ

abbrev pub end_of_cluster_chain : ℕ
end_of_cluster_chain = 2 ^ 28 - 1

pub bytes_per_cluster : Volume → ℕ
bytes_per_cluster v = v.bytes_per_sector * v.sectors_per_cluster

-- The sum of the first two terms is one of 32 bits; the difference is one of 64.
pub get_cluster_addr : Volume → ℕ → ℕ
get_cluster_addr v cluster =
    let first = (v.reserved_sector_count + v.num_fats * v.fat_size_32) % 2 ^ 32 in
    let sector_num = (first + (cluster + (2 ^ 64 - 2)) % 2 ^ 64 * v.sectors_per_cluster) % 2 ^ 64 in
    sector_num * v.bytes_per_sector % 2 ^ 64

-- `fat[cluster]`, four bytes, the lowest first.
pub fat_entry : Volume → ℕ → ℕ
fat_entry v cluster =
    let at = v.reserved_sector_count * v.bytes_per_sector + 4 * cluster in
    v.byte at + v.byte (at + 1) * 2 ^ 8 + v.byte (at + 2) * 2 ^ 16 + v.byte (at + 3) * 2 ^ 24

pub next_cluster : Volume → ℕ → ℕ
next_cluster v cluster =
    let next = fat_entry v cluster in if leb (2 ^ 28 - 8) next then end_of_cluster_chain else next

abbrev pub is_valid_cluster : ℕ → Bool
is_valid_cluster c = not (c == 0) && not (c == end_of_cluster_chain)

-- `memcpy` from the image.
unfoldable pub read_bytes : Volume → (size at : ℕ) → List ℕ
read_bytes v zero at = []
read_bytes v (suc size) at = v.byte at ∷ read_bytes v size (at + 1)

-- The loop of `LoadFile` on fuel, with the room that is left in the buffer: the bytes it writes.
pub load_loop : (fuel : ℕ) → Volume → (cluster room : ℕ) → Option (List ℕ)
load_loop zero v cluster room = none
load_loop (suc fuel) v cluster room =
    let rest = load_loop fuel v (next_cluster v cluster) (room - bytes_per_cluster v) in
    if not (is_valid_cluster cluster)
    then some []
    else if leb room (bytes_per_cluster v)
    then some (read_bytes v room (get_cluster_addr v cluster))
    else elim rest [
      | none ↦ none
      | some bytes ↦ some (read_bytes v (bytes_per_cluster v) (get_cluster_addr v cluster) ++ bytes)
    ]

-- `LoadFile`, from the first cluster of the entry, into a buffer of `len` bytes. The number that the
-- code returns is that of the bytes written.
pub load_file : (fuel : ℕ) → Volume → (len first_cluster : ℕ) → Option (List ℕ)
load_file fuel v len first_cluster = load_loop fuel v first_cluster len
