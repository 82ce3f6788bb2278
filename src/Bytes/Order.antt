-- ===== src/Bytes/Order.antt =====
-- Laws of the lexicographic order, of `starts_with` and of their interplay with a common prefix.
use etcd_client.Prelude.{ℕ, ◌≡◌, refl, true, false, ◌&&◌, [], ◌∷◌, ◌++◌, arith, is_empty}
use etcd_client.Bytes.{Bytes, IsBytes, bytes_eq, lex_ltb, lex_leb, starts_with, is_edge}

pub lex_ltb-nil : (xs : Bytes) → lex_ltb xs [] ≡ false
unfolding lex_ltb
lex_ltb-nil [] = refl
lex_ltb-nil (x ∷ xs) = refl

pub lex_ltb_irrefl : (xs : Bytes) → lex_ltb xs xs ≡ false
unfolding lex_ltb
lex_ltb_irrefl [] = refl
lex_ltb_irrefl (x ∷ xs) = ground (arith, lex_ltb_irrefl xs)

pub starts_with-append : (p k : Bytes) → starts_with p (p ++ k) ≡ true
unfolding starts_with
starts_with-append [] k = refl
starts_with-append (x ∷ p) k = ground (arith, starts_with-append p k)

-- Behind a common prefix the order is that of the rests.
pub lex_ltb-append_left : (p k j : Bytes) → lex_ltb (p ++ k) (p ++ j) ≡ lex_ltb k j
unfolding lex_ltb
lex_ltb-append_left [] k j = refl
lex_ltb-append_left (x ∷ p) k j = ground (arith, lex_ltb-append_left p k j)

pub bytes_eq-append_left : (p k j : Bytes) → bytes_eq (p ++ k) (p ++ j) ≡ bytes_eq k j
unfolding bytes_eq
bytes_eq-append_left [] k j = refl
bytes_eq-append_left (x ∷ p) k j = ground (arith, bytes_eq-append_left p k j)

-- A string that lies between two strings with a prefix has the prefix.
pub between-starts_with :
    (p k j x : Bytes) → starts_with p x ≡ false → (lex_leb (p ++ k) x && lex_ltb x (p ++ j)) ≡ false
unfolding lex_ltb starts_with
between-starts_with [] k j x h = ground arith
between-starts_with (a ∷ p) k j [] h = refl
between-starts_with (a ∷ p) k j (b ∷ x) h = ground (arith, between-starts_with p k j x)

pub bytes_eq-starts_with : (p k x : Bytes) → starts_with p x ≡ false → bytes_eq (p ++ k) x ≡ false
unfolding bytes_eq starts_with
bytes_eq-starts_with [] k x h = ground arith
bytes_eq-starts_with (a ∷ p) k [] h = refl
bytes_eq-starts_with (a ∷ p) k (b ∷ x) h = ground (arith, bytes_eq-starts_with p k x)

pub bytes_eq→eq : (x y : Bytes) → bytes_eq x y ≡ true → x ≡ y
unfolding bytes_eq
bytes_eq→eq [] [] h = refl
bytes_eq→eq [] (b ∷ y) h = ground arith
bytes_eq→eq (a ∷ x) [] h = ground arith
bytes_eq→eq (a ∷ x) (b ∷ y) h = ground (arith, bytes_eq→eq x y)

pub bytes_eq_refl : (x : Bytes) → bytes_eq x x ≡ true
unfolding bytes_eq
bytes_eq_refl [] = refl
bytes_eq_refl (a ∷ x) = ground (arith, bytes_eq_refl x)

-- A string with the prefix is the prefix and a rest.
pub starts_with→append : (p x : Bytes) → starts_with p x ≡ true → (k : Bytes) × (x ≡ p ++ k)
unfolding starts_with
starts_with→append [] x h = (x, refl)
starts_with→append (a ∷ p) [] h = ([], ground arith)
starts_with→append (a ∷ p) (b ∷ x) h =
    let (k, e) = starts_with→append p x (ground arith) in (k, ground arith)

pub is_edge-append : (a : ℕ) (p j : Bytes) → is_empty j ≡ false → is_edge (a ∷ p ++ j) ≡ false
unfolding is_edge
is_edge-append a [] [] h = ground arith
is_edge-append a [] (b ∷ j) h = refl
is_edge-append a (c ∷ p) j h = refl

pub starts_with-append_left : (p k x : Bytes) → starts_with (p ++ k) (p ++ x) ≡ starts_with k x
unfolding starts_with
starts_with-append_left [] k x = refl
starts_with-append_left (a ∷ p) k x = ground (arith, starts_with-append_left p k x)

pub starts_with-append_false :
    (p k x : Bytes) → starts_with p x ≡ false → starts_with (p ++ k) x ≡ false
unfolding starts_with
starts_with-append_false [] k x h = ground arith
starts_with-append_false (a ∷ p) k [] h = refl
starts_with-append_false (a ∷ p) k (b ∷ x) h = ground (arith, starts_with-append_false p k x)

pub IsBytes-append : (p k : Bytes) → IsBytes p → IsBytes k → IsBytes (p ++ k)
IsBytes-append [] k hp hk = hk
IsBytes-append (a ∷ p) k hp hk = (hp.0, IsBytes-append p k hp.1 hk)

pub IsBytes-append_right : (p k : Bytes) → IsBytes (p ++ k) → IsBytes k
IsBytes-append_right [] k h = h
IsBytes-append_right (a ∷ p) k h = IsBytes-append_right p k h.1
