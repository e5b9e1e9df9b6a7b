-- ===== src/Asio/Pending.antt =====
-- What asio holds for an object: handlers and operations with their executors, oldest first.
use kernel_udp_tcp.Prelude.{◌≡◌, refl, Bool, true, false, ◌||◌, List, [], ◌∷◌, ◌++◌, arith}
use kernel_udp_tcp.Asio.{Executor}

module _ {Task : Type 0} where
  -- Whether a task of a kind is held.
  pub holds : (Task → Bool) → List (Executor × Task) → Bool
  holds p [] = false
  holds p ((x, t) ∷ rest) = p t || holds p rest

  pub holds-append :
      (p : Task → Bool) (l r : List (Executor × Task)) → holds p (l ++ r) ≡ (holds p l || holds p r)
  unfolding holds
  holds-append p [] r = refl
  holds-append p ((x, t) ∷ l) r = ground (arith, holds-append p l r)

  -- A task of another kind can be taken away.
  pub holds-remove :
      (p : Task → Bool) (l r : List (Executor × Task)) (x : Executor) (t : Task)
      → p t ≡ false
      → holds p (l ++ ((x, t) ∷ r)) ≡ true
      → holds p (l ++ r) ≡ true
  unfolding holds
  holds-remove p l r x t h k = ground (arith, holds-append p l ((x, t) ∷ r), holds-append p l r)

  pub holds-submit :
      (p : Task → Bool) (l : List (Executor × Task)) (x : Executor) (t : Task)
      → holds p (l ++ (x, t) ∷ []) ≡ (holds p l || p t)
  unfolding holds
  holds-submit p l x t = ground (arith, holds-append p l ((x, t) ∷ []))
