-- ===== src/VecExt/Raw/Safety.antt =====
-- The unsafe bodies against the memory of the vector and the safe operations.
use etcd_client.Prelude.{
  ℕ, ◌≡◌, ◌+◌, ◌-◌, ◌≤◌, Option, some, ◌++◌, arith, length, take, drop, length-append,
  take-append_exact, take_all, take-append_le, drop-append_exact, append_assoc, drop-take,
  length-drop, length-take_le, sym, ap, ◌∙◌, refl, inl, inr, Bool-cases, [], ◌∷◌,
}
use etcd_client.Bytes.{Bytes, starts_with}
use etcd_client.Bytes.Order.{starts_with→append}
use etcd_client.VecExt
use etcd_client.VecExt.Raw.{
  RawVec, Allocator, contents, IsValid, reserve, copy_within, copy_from, set_len, ◌>>=◌,
  strip_key_prefix, prefix_with,
}

-- The run has no undefined behaviour, and ends in a valid vector with the given contents.
pub record Yields (r : Option RawVec) (bytes : Bytes) : Type 0 where
  pub final : RawVec
  pub returned : r ≡ some final
  pub valid : IsValid final
  pub holds : contents final ≡ bytes

copy_within_inside :
    (from to n : ℕ) (cells : Bytes)
    → from + n ≤ length cells
    → to + n ≤ length cells
    → copy_within from to n cells
      ≡ some (take to cells ++ (take n (drop from cells) ++ drop (to + n) cells))
unfolding copy_within
copy_within_inside from to n cells h k = ground arith

copy_from_inside :
    (slice : Bytes) (cells : Bytes)
    → length slice ≤ length cells
    → copy_from slice 0 (length slice) cells ≡ some (slice ++ drop (length slice) cells)
unfolding copy_from
copy_from_inside slice cells h = ground (arith, take_all slice)

set_len_within :
    (n : ℕ) (cells : Bytes)
    → n ≤ length cells
    → set_len n cells ≡ some (record { cells = cells; len = n })
unfolding set_len
set_len_within n cells h = ground arith

-- The vector keeps its first `n` bytes where these are `bytes`.
set_len-Yields :
    (n : ℕ) (bytes rest : Bytes) → length bytes ≡ n → Yields (set_len n (bytes ++ rest)) bytes
set_len-Yields n bytes rest e = record {
  final = record { cells = bytes ++ rest; len = n };
  returned = set_len_within n (bytes ++ rest) fits;
  valid = fits;
  holds = take-append_exact n bytes rest e;
}
  where
    fits : n ≤ length (bytes ++ rest)
    fits = omega (arith, length-append bytes rest)

strip_cells :
    (p : ℕ) (v : RawVec) (k : Bytes)
    → IsValid v
    → p ≤ v.len
    → drop p (contents v) ≡ k
    → Yields (copy_within p 0 (v.len - p) v.cells >>= set_len (v.len - p)) k
strip_cells p v k h le e =
    rw
      (
        copy_within_inside p 0 (v.len - p) v.cells (omega arith) (omega arith),
        sym (drop-take p v.len v.cells) ∙ e,
      )
      (set_len-Yields (v.len - p) k (drop (0 + (v.len - p)) v.cells)
        (omega (arith, ap length e, length-drop p (contents v), length-take_le v.len v.cells h)))

-- When the contents start with the prefix, the unsafe `strip_key_prefix` copies and shortens inside
-- the vector's memory, with no undefined behaviour; in every case it ends in a valid vector that
-- holds what the safe `strip_key_prefix` gives.
pub strip_key_prefix_safe :
    (prefix : Bytes) (v : RawVec)
    → IsValid v
    → Yields (strip_key_prefix prefix v) (VecExt.strip_key_prefix prefix (contents v))
unfolding strip_key_prefix VecExt.strip_key_prefix
strip_key_prefix_safe [] v h = record { final = v; returned = refl; valid = h; holds = refl }
strip_key_prefix_safe (x ∷ p) v h = elim (Bool-cases (starts_with (x ∷ p) (contents v))) [
  | inr other ↦ rw other (record { final = v; returned = refl; valid = h; holds = refl })
  | inl found ↦
      let (k, e) = starts_with→append (x ∷ p) (contents v) found in
      rw found (
        strip_cells (length (x ∷ p)) v (drop (length (x ∷ p)) (contents v)) h
          (omega (arith, ap length e, length-append (x ∷ p) k, length-take_le v.len v.cells h))
          refl)
]

-- `reserve` makes room and keeps the contents.
reserve_room :
    (alloc : Allocator) (n : ℕ) (v : RawVec) → v.len + n ≤ length (reserve alloc n v).cells
unfolding reserve
reserve_room alloc n v = ground (
  arith,
  alloc.enough (v.len + n - length v.cells),
  length-append v.cells (alloc.spare (v.len + n - length v.cells)),
)

contents-reserve :
    (alloc : Allocator) (n : ℕ) (v : RawVec)
    → IsValid v
    → take v.len (reserve alloc n v).cells ≡ contents v
unfolding reserve
contents-reserve alloc n v h =
    ground (arith, take-append_le v.len v.cells (alloc.spare (v.len + n - length v.cells)) h)

-- The bytes after the two copies.
prefix_cells :
    (q : Bytes) (len : ℕ) (cells old : Bytes)
    → len + length q ≤ length cells
    → take len cells ≡ old
    → Yields
        (copy_within 0 (length q) len cells >>= λ moved.
          copy_from q 0 (length q) moved >>= λ filled. set_len (len + length q) filled)
        (q ++ old)
prefix_cells q len cells old room e =
    rw
      (
        ← e,
        copy_within_inside 0 (length q) len cells (omega arith) (omega arith),
        copy_from_inside q moved big,
        drop-append_exact (length q) (take (length q) cells) tail front,
        sym (append_assoc q (take len cells) (drop (length q + len) cells)),
      )
      (set_len-Yields (len + length q) (q ++ take len cells) (drop (length q + len) cells) size)
  where
    tail : Bytes
    tail = take len cells ++ drop (length q + len) cells

    moved : Bytes
    moved = take (length q) cells ++ tail

    front : length (take (length q) cells) ≡ length q
    front = length-take_le (length q) cells (omega arith)

    big : length q ≤ length moved
    big = omega (arith, front, length-append (take (length q) cells) tail)

    size : length (q ++ take len cells) ≡ len + length q
    size = omega (arith, length-append q (take len cells), length-take_le len cells (omega arith))

-- The unsafe `prefix_with` stays inside the memory that `reserve` provides, with no undefined
-- behaviour, whatever the allocator adds; it ends in a valid vector that holds the prefix and the
-- old contents, as the safe `prefix_with` gives them.
pub prefix_with_safe :
    (alloc : Allocator) (prefix : Bytes) (v : RawVec)
    → IsValid v
    → Yields (prefix_with alloc prefix v) (VecExt.prefix_with prefix (contents v))
unfolding prefix_with VecExt.prefix_with
prefix_with_safe alloc [] v h = record { final = v; returned = refl; valid = h; holds = refl }
prefix_with_safe alloc (x ∷ p) v h =
    prefix_cells (x ∷ p) v.len (reserve alloc (length (x ∷ p)) v).cells (contents v)
      (reserve_room alloc (length (x ∷ p)) v) (contents-reserve alloc (length (x ∷ p)) v h)
