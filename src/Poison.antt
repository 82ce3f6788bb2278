-- ===== src/Poison.antt =====
-- src/lock.rs: locks that are taken whatever their poisoning. A lock of the standard library holds a
-- value and whether a holder has panicked while it wrote; taking a poisoned lock gives an error with
-- the guard inside.
use etcd_client.Prelude.{Bool, true, false, List, [], ◌∷◌}

pub record RwLock {ℓ} (A : Type ℓ) : Type ℓ where
  pub value : A
  pub poisoned : Bool

-- What `read`, `write` and `lock` of the standard library return.
pub data LockResult {ℓ} (A : Type ℓ) : Type ℓ where
  guard : (value : A) → LockResult A
  poison_error : (value : A) → LockResult A

-- What the holders do: read, write, or panic while they hold the lock for writing, before or after they
-- have written.
pub data Access {ℓ} (A : Type ℓ) : Type ℓ where
  read_value panic_before : Access A
  write_value panic_after : (value : A) → Access A

module _ {ℓ} {A : Type ℓ} where
  abbrev take_lock : RwLock A → LockResult A
  take_lock l = elim l.poisoned [ true ↦ poison_error l.value | false ↦ guard l.value ]

  abbrev clear_poison : RwLock A → RwLock A
  clear_poison l = record l { poisoned = false }

  -- The `match` of all three functions: the value behind the guard, and the lock.
  abbrev unpoison : LockResult A → RwLock A → A × RwLock A
  unpoison (guard value) l = (value, l)
  unpoison (poison_error value) l = (value, clear_poison l)

  unfoldable pub read_unpoisoned : RwLock A → A × RwLock A
  read_unpoisoned l = unpoison (take_lock l) l

  unfoldable pub write_unpoisoned : RwLock A → A × RwLock A
  write_unpoisoned l = unpoison (take_lock l) l

  -- `MutexExt`
  unfoldable pub lock_unpoisoned : RwLock A → A × RwLock A
  lock_unpoisoned l = unpoison (take_lock l) l

  -- The values that the reads see on the lock.
  unfoldable pub reads : List (Access A) → RwLock A → List A
  unfolding read_unpoisoned write_unpoisoned
  reads [] l = []
  reads (read_value ∷ rest) l = let (a, l') = read_unpoisoned l in a ∷ reads rest l'
  reads (panic_before ∷ rest) l =
      let (a, l') = write_unpoisoned l in reads rest (record l' { poisoned = true })
  reads (write_value a ∷ rest) l =
      let (b, l') = write_unpoisoned l in reads rest (record l' { value = a })
  reads (panic_after a ∷ rest) l =
      let (b, l') = write_unpoisoned l in reads rest (record { value = a; poisoned = true })

  -- The values that the reads see on a cell that is not locked.
  abbrev pub cell_reads : List (Access A) → A → List A
  cell_reads [] a = []
  cell_reads (read_value ∷ rest) a = a ∷ cell_reads rest a
  cell_reads (panic_before ∷ rest) a = cell_reads rest a
  cell_reads (write_value b ∷ rest) a = cell_reads rest b
  cell_reads (panic_after b ∷ rest) a = cell_reads rest b
