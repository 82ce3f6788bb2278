-- ===== src/Caller/Handles/Cells.antt =====
-- Cells of the heap that are read and written.
use etcd_client.Prelude.{
  ℕ, zero, suc, ◌<◌, ◌≡◌, refl, ap, Option, List, [], ◌∷◌, ◌++◌, length, arith,
}
use etcd_client.Caller.Handles.{read_cell, write_cell}

module _ {A : Type 0} where
  pub read_cell-write_cell :
      (n : ℕ) (a : Option A) (cells : List (Option A))
      → n < length cells
      → read_cell n (write_cell n a cells) ≡ a
  unfolding read_cell write_cell
  read_cell-write_cell n a [] h = absurd (omega arith)
  read_cell-write_cell zero a (b ∷ cells) h = refl
  read_cell-write_cell (suc n) a (b ∷ cells) h = read_cell-write_cell n a cells (omega arith)

  pub write_cell-write_cell :
      (n : ℕ) (a b : Option A) (cells : List (Option A))
      → write_cell n b (write_cell n a cells) ≡ write_cell n b cells
  unfolding write_cell
  write_cell-write_cell n a b [] = refl
  write_cell-write_cell zero a b (d ∷ cells) = refl
  write_cell-write_cell (suc n) a b (d ∷ cells) =
      ap (λ rest. d ∷ rest) (write_cell-write_cell n a b cells)

  pub write_cell-read_cell :
      (n : ℕ) (cells : List (Option A)) → write_cell n (read_cell n cells) cells ≡ cells
  unfolding read_cell write_cell
  write_cell-read_cell n [] = refl
  write_cell-read_cell zero (a ∷ cells) = refl
  write_cell-read_cell (suc n) (a ∷ cells) = ap (λ rest. a ∷ rest) (write_cell-read_cell n cells)

  pub length-write_cell :
      (n : ℕ) (a : Option A) (cells : List (Option A))
      → length (write_cell n a cells) ≡ length cells
  unfolding write_cell
  length-write_cell n a [] = refl
  length-write_cell zero a (b ∷ cells) = refl
  length-write_cell (suc n) a (b ∷ cells) = omega (arith, length-write_cell n a cells)

  -- A new cell is behind all others.
  pub read_cell_new :
      (a : Option A) (cells : List (Option A)) → read_cell (length cells) (cells ++ a ∷ []) ≡ a
  unfolding read_cell
  read_cell_new a [] = refl
  read_cell_new a (b ∷ cells) = read_cell_new a cells
