-- ===== src/VecExt/Raw.antt =====
-- The unsafe bodies of `strip_key_prefix` and `prefix_with` of src/vec.rs, on the memory that a
-- vector owns: its cells, of which the first `len` are its contents. An access outside the cells is
-- undefined behaviour, and `none` here. Lengths are unbounded: an allocation that fails aborts.
pub mod Safety
use etcd_client.Prelude.{
  ℕ, ◌+◌, ◌-◌, ◌≤◌, Bool, true, false, not, ◌&&◌, Option, none, some, List, [], ◌∷◌, ◌++◌, leb,
  if◌then◌else◌, is_empty, length, take, drop,
}
use etcd_client.Bytes.{Bytes, starts_with}

pub record RawVec : Type 0 where
  pub cells : Bytes
  pub len : ℕ

-- The bytes that safe code sees.
abbrev pub contents : RawVec → Bytes
contents v = take v.len v.cells

abbrev pub IsValid : RawVec → Type 0
IsValid v = v.len ≤ length v.cells

-- What a reallocation adds for a shortfall of `n` cells: at least `n` cells, with any contents.
pub record Allocator : Type 0 where
  pub spare : ℕ → Bytes
  pub enough : (n : ℕ) → n ≤ length (spare n)

-- `Vec::reserve`
unfoldable pub reserve : Allocator → ℕ → RawVec → RawVec
reserve alloc additional v =
    if leb (v.len + additional) (length v.cells)
    then v
    else record v { cells = v.cells ++ alloc.spare (v.len + additional - length v.cells) }

-- `std::ptr::copy(ptr.add(from), ptr.add(to), n)` within one allocation
unfoldable pub copy_within : ℕ → ℕ → ℕ → Bytes → Option Bytes
copy_within from to n cells =
    if leb (from + n) (length cells) && leb (to + n) (length cells)
    then some (take to cells ++ (take n (drop from cells) ++ drop (to + n) cells))
    else none

-- `std::ptr::copy_nonoverlapping(slice.as_ptr(), ptr.add(to), n)` from another allocation
unfoldable pub copy_from : Bytes → ℕ → ℕ → Bytes → Option Bytes
copy_from slice to n cells =
    if leb n (length slice) && leb (to + n) (length cells)
    then some (take to cells ++ (take n slice ++ drop (to + n) cells))
    else none

-- `Vec::set_len`, whose contract is that the length is within the capacity
unfoldable pub set_len : ℕ → Bytes → Option RawVec
set_len n cells = if leb n (length cells) then some (record { cells = cells; len = n }) else none

infixl 5 ◌>>=◌
abbrev pub ◌>>=◌ : {A B : Type 0} → Option A → (A → Option B) → Option B
none >>= f = none
some a >>= f = f a

unfoldable pub strip_key_prefix : Bytes → RawVec → Option RawVec
unfolding copy_within set_len
strip_key_prefix prefix v =
    if is_empty prefix
    then some v
    else if not (starts_with prefix (contents v))
    then some v
    else (do
      let pfx_len = length prefix
      let new_len = v.len - pfx_len
      cells ← copy_within pfx_len 0 new_len v.cells
      set_len new_len cells)

unfoldable pub prefix_with : Allocator → Bytes → RawVec → Option RawVec
unfolding reserve copy_within copy_from set_len
prefix_with alloc prefix v = if is_empty prefix then some v else (do
  let pfx_len = length prefix
  let grown = reserve alloc pfx_len v
  moved ← copy_within 0 pfx_len v.len grown.cells
  filled ← copy_from prefix 0 pfx_len moved
  set_len (v.len + pfx_len) filled)
