-- ===== src/Recovery/Frames.antt =====
-- A block of bytes behind its length, as Flush and AppendData write it
-- (platform/consensus/recovery/recovery.cpp), under the functions that read it.
use resilientdb.Common.{
  ltb, Bool-cases, none, take, ◌∷◌, List, ℕ, length, length-append, take-append_self,
  drop-append_self, ◌+◌, ◌^◌, ◌<◌, ◌≡◌, some, ◌++◌, arith, zero, suc, ◌≤◌, refl, [], length-take,
  take-append, take_all, ◌-◌, inl, inr,
}
use resilientdb.Recovery.Replay.{parse_raw, parse_raw_data, read_block, read}
use resilientdb.Recovery.Sizes.{Bytes, size_bytes, size_of, size_of-size_bytes}

-- A block behind its length.
abbrev pub framed : Bytes → Bytes
framed b = size_bytes (length b) ++ b

pub length-framed : (b : Bytes) → length (framed b) ≡ 8 + length b
unfolding size_bytes
length-framed b = omega arith

pub read_block-framed :
    (b rest : Bytes) → length b < 2 ^ 64 → read_block (framed b ++ rest) ≡ some (b, rest)
unfolding read_block read size_bytes
read_block-framed b rest small =
    let size : size_of (size_bytes (length b)) ≡ length b = size_of-size_bytes (length b) small in
    ground (arith, size, length-append b rest, take-append_self b rest, drop-append_self b rest)

cut_after :
    (b rest : Bytes) (k : ℕ)
    → 8 ≤ k
    → take k (framed b ++ rest) ≡ size_bytes (length b) ++ take (k - 8) (b ++ rest)
unfolding size_bytes
cut_after b rest k h =
    ground
      (arith, take-append k (size_bytes (length b)) (b ++ rest), take_all k (size_bytes (length b)))

cut_inside :
    (b more : Bytes)
    → length b < 2 ^ 64
    → length more < length b
    → read_block (size_bytes (length b) ++ more) ≡ none
unfolding read_block read size_bytes
cut_inside b more small h =
    let size : size_of (size_bytes (length b)) ≡ length b = size_of-size_bytes (length b) small in
    ground (arith, size)

-- A block that is cut is not read.
pub read_block_cut :
    (b rest : Bytes) (k : ℕ)
    → length b < 2 ^ 64
    → k < 8 + length b
    → read_block (take k (framed b ++ rest)) ≡ none
read_block_cut b rest k small h = elim (Bool-cases (ltb k 8)) [
  | inl short ↦ unfold read_block in unfold read in ground (arith, length-take k (framed b ++ rest))
  | inr inside ↦
      let n = length b in
      let split : take k (framed b ++ rest) ≡ size_bytes n ++ take (k - 8) (b ++ rest) =
        cut_after b rest k (ground arith) in
      rw split (
        cut_inside b (take (k - 8) (b ++ rest)) small
          (ground (arith, length-take (k - 8) (b ++ rest))))
]

-- Items one after the other, each behind its length.
abbrev pub all_framed : List Bytes → Bytes
all_framed [] = []
all_framed (x ∷ xs) = framed x ++ all_framed xs

abbrev pub AllSmall : List Bytes → Type 0
AllSmall [] = Unit {0}
AllSmall (x ∷ xs) = (length x < 2 ^ 64) × AllSmall xs

parse_raw-all_framed :
    (xs : List Bytes) (fuel : ℕ)
    → length xs ≤ fuel
    → AllSmall xs
    → parse_raw fuel (all_framed xs) ≡ some xs
unfolding parse_raw size_bytes
parse_raw-all_framed [] zero h s = refl
parse_raw-all_framed [] (suc fuel) h s = refl
parse_raw-all_framed (x ∷ xs) zero h s = absurd (omega arith)
parse_raw-all_framed (x ∷ xs) (suc fuel) h s =
    let size : size_of (size_bytes (length x)) ≡ length x = size_of-size_bytes (length x) s.0 in
    ground (
      arith,
      size,
      take-append_self x (all_framed xs),
      drop-append_self x (all_framed xs),
      parse_raw-all_framed xs fuel (omega arith) s.1,
    )

length-all_framed : (xs : List Bytes) → length xs ≤ length (all_framed xs)
unfolding size_bytes
length-all_framed [] = omega arith
length-all_framed (x ∷ xs) = omega (arith, length-all_framed xs, length-append x (all_framed xs))

pub parse_raw_data-all_framed :
    (xs : List Bytes) → AllSmall xs → parse_raw_data (all_framed xs) ≡ some xs
unfolding parse_raw_data
parse_raw_data-all_framed xs s =
    parse_raw-all_framed xs (length (all_framed xs)) (length-all_framed xs) s
