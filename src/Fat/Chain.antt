-- ===== src/Fat/Chain.antt =====
-- `LoadFile` (Kernel/fat.cpp) reads the clusters of a chain, one after the other.
use mikanos_copy.Common.{
  ℕ, zero, suc, ◌+◌, ◌-◌, ◌<◌, ◌≤◌, ◌≡◌, refl, sym, ap, ◌∙◌, true, false, some, List, [], ◌∷◌, ◌++◌,
  leb, take, length, arith, Bool-cases, inl, inr,
}
use mikanos_copy.Fat.{
  Volume, bytes_per_cluster, get_cluster_addr, next_cluster, is_valid_cluster, read_bytes,
  load_loop, load_file,
}

-- The clusters from one on, up to a number that is no cluster.
pub data Chain (v : Volume) : ℕ → List ℕ → Type 0 where
  ends : {c : ℕ} → is_valid_cluster c ≡ false → Chain v c []
  goes_on :
      {c : ℕ} {clusters : List ℕ}
      → is_valid_cluster c ≡ true
      → Chain v (next_cluster v c) clusters
      → Chain v c (c ∷ clusters)

-- The bytes of these clusters.
unfoldable pub contents : Volume → List ℕ → List ℕ
contents v [] = []
contents v (c ∷ clusters) =
    read_bytes v (bytes_per_cluster v) (get_cluster_addr v c) ++ contents v clusters

take_all :
    (n : ℕ) (xs ys : List ℕ) → length xs ≤ n → take n (xs ++ ys) ≡ xs ++ take (n - length xs) ys
take_all n [] ys h = ap (λ k. take k ys) (omega arith)
take_all zero (x ∷ xs) ys h = absurd (omega (arith, h))
take_all (suc n) (x ∷ xs) ys h =
    ap (λ zs. x ∷ zs)
      (take_all n xs ys (omega (arith, h)) ∙ ap (λ k. xs ++ take k ys) (omega arith))

length-read_bytes : (v : Volume) (n at : ℕ) → length (read_bytes v n at) ≡ n
unfolding read_bytes
length-read_bytes v zero at = refl
length-read_bytes v (suc n) at = ap suc (length-read_bytes v n (at + 1))

-- The first bytes of a piece that is long enough.
take-read_bytes :
    (v : Volume) (n m at : ℕ) (ys : List ℕ)
    → n ≤ m
    → take n (read_bytes v m at ++ ys) ≡ read_bytes v n at
unfolding read_bytes
take-read_bytes v zero m at ys h = refl
take-read_bytes v (suc n) zero at ys h = absurd (omega (arith, h))
take-read_bytes v (suc n) (suc m) at ys h =
    ap (λ zs. v.byte at ∷ zs) (take-read_bytes v n m (at + 1) ys (omega (arith, h)))

load_ends :
    (v : Volume) (fuel c room : ℕ)
    → is_valid_cluster c ≡ false
    → load_loop (suc fuel) v c room ≡ some []
unfolding load_loop
load_ends v fuel c room bad = rw (bad, load_loop) refl

load_last :
    (v : Volume) (fuel c room : ℕ)
    → is_valid_cluster c ≡ true
    → leb room (bytes_per_cluster v) ≡ true
    → load_loop (suc fuel) v c room ≡ some (read_bytes v room (get_cluster_addr v c))
unfolding load_loop
load_last v fuel c room good fits = rw (good, fits, load_loop) refl

load_more :
    (v : Volume) (fuel c room : ℕ) (bytes : List ℕ)
    → is_valid_cluster c ≡ true
    → leb room (bytes_per_cluster v) ≡ false
    → load_loop fuel v (next_cluster v c) (room - bytes_per_cluster v) ≡ some bytes
    → load_loop (suc fuel) v c room
      ≡ some (read_bytes v (bytes_per_cluster v) (get_cluster_addr v c) ++ bytes)
unfolding load_loop
load_more v fuel c room bytes good wide e = rw (good, wide, e, load_loop) refl

take_none : (n : ℕ) → ◌≡◌ {A = List ℕ} [] (take n [])
take_none zero = refl
take_none (suc n) = refl

-- On a chain that ends, with more rounds than it has clusters, `LoadFile` writes the contents of the
-- clusters in order, as far as the buffer goes.
pub load_file-contents :
    {v : Volume} {c : ℕ} {clusters : List ℕ}
    → Chain v c clusters
    → (fuel len : ℕ) → length clusters < fuel
    → load_file fuel v len c ≡ some (take len (contents v clusters))
unfolding load_file contents
load_file-contents chain zero len h = absurd (omega (arith, h))
load_file-contents {v = v} (ends {c = c} bad) (suc fuel) len h =
    load_ends v fuel c len bad ∙ ap some (take_none len)
load_file-contents {v = v} (goes_on {c = c} {clusters = clusters} good rest) (suc fuel) len h =
    let size = bytes_per_cluster v in
    let at = get_cluster_addr v c in
    let full : length (read_bytes v size at) ≡ size = length-read_bytes v size at in
    elim (Bool-cases (leb len size)) [
      | inl fits ↦
          load_last v fuel c len good fits
          ∙ ap some
              (sym (take-read_bytes v len size at (contents v clusters) (ground (arith, fits))))
      | inr wide ↦
          load_more v fuel c len (take (len - size) (contents v clusters)) good wide (
            load_file-contents {v = v} {c = next_cluster v c} {clusters = clusters} rest fuel
              (len - size) (omega (arith, h)))
          ∙ ap some (
              sym (
                take_all len (read_bytes v size at) (contents v clusters)
                  (ground (arith, wide, full))
                ∙ ap (λ k. read_bytes v size at ++ take (len - k) (contents v clusters)) full))
    ]
