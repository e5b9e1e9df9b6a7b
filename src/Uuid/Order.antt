-- ===== src/Uuid/Order.antt =====
-- The comparison operators of UUID: std::array compares byte by byte.
use kernel_udp_tcp.Prelude.{◌≡◌, refl, ◌↔◌, ◌⊎◌, inl, inr, true, false, ◌&&◌, not, [], ◌∷◌, arith}
use kernel_udp_tcp.Uuid.{Bytes, less, equals}

equals-eq : (xs ys : Bytes) → equals xs ys ≡ true → xs ≡ ys
unfolding equals
equals-eq [] [] h = refl
equals-eq [] (y ∷ ys) h = cc
equals-eq (x ∷ xs) [] h = cc
equals-eq (x ∷ xs) (y ∷ ys) h = ground (arith, equals-eq xs ys)

equals_self : (xs : Bytes) → equals xs xs ≡ true
unfolding equals
equals_self [] = refl
equals_self (x ∷ xs) = ground (arith, equals_self xs)

less_irrefl : (xs : Bytes) → less xs xs ≡ false
unfolding less
less_irrefl [] = refl
less_irrefl (x ∷ xs) = ground (arith, less_irrefl xs)

less_trans : (xs ys zs : Bytes) → less xs ys ≡ true → less ys zs ≡ true → less xs zs ≡ true
unfolding less
less_trans [] [] zs p q = cc
less_trans [] (y ∷ ys) [] p q = cc
less_trans [] (y ∷ ys) (z ∷ zs) p q = refl
less_trans (x ∷ xs) [] zs p q = cc
less_trans (x ∷ xs) (y ∷ ys) [] p q = cc
less_trans (x ∷ xs) (y ∷ ys) (z ∷ zs) p q = ground (arith, less_trans xs ys zs)

less_total : (xs ys : Bytes) → (less xs ys ≡ true) ⊎ (equals xs ys ≡ true) ⊎ (less ys xs ≡ true)
unfolding less equals
less_total [] [] = inr (inl refl)
less_total [] (y ∷ ys) = inl refl
less_total (x ∷ xs) [] = inr (inr refl)
less_total (x ∷ xs) (y ∷ ys) = ground (arith, less_total xs ys)

less_trans_test : (xs ys zs : Bytes) → (less xs ys && less ys zs && not (less xs zs)) ≡ false
less_trans_test xs ys zs = ground (arith, less_trans xs ys zs)

-- operator< of UUIDs is a strict total order with operator== for its equality: it is irreflexive
-- and transitive, any two UUIDs are related one way or equal, and == holds exactly of equal arrays.
pub less-equals_order :
    (xs ys zs : Bytes)
    → (less xs xs ≡ false)
      × ((less xs ys && less ys zs && not (less xs zs)) ≡ false)
      × ((less xs ys ≡ true) ⊎ (equals xs ys ≡ true) ⊎ (less ys xs ≡ true))
      × ((equals xs ys ≡ true) ↔ (xs ≡ ys))
less-equals_order xs ys zs = (
  less_irrefl xs,
  less_trans_test xs ys zs,
  less_total xs ys,
  (equals-eq xs ys, λ e. rw e (equals_self ys)),
)
