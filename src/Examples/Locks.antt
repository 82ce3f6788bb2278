-- ===== src/Examples/Locks.antt =====
-- A lock that was poisoned, and whose next writer panics too.
use etcd_client.Prelude.{ℕ, List, [], ◌∷◌}
use etcd_client.Poison.{Access, read_value, write_value, panic_after}

abbrev accesses : List (Access ℕ)
accesses = read_value ∷ panic_after 2 ∷ read_value ∷ write_value 3 ∷ read_value ∷ []
