-- ===== src/Queue.antt =====
-- client/src/common/CThreadSafeQueue.hpp. Each call holds the mutex, so a queue is its list.
use ubiquitous_chainsaw.Base.{
  ℕ, Bool, true, false, List, [], ◌∷◌, ◌++◌, length, Outcome, ok, stop, undefined,
}

module _ {ℓ} {A : Type ℓ} where
  unfoldable pub push : A → List A → List A
  push val list = list ++ (val ∷ [])

  -- The overload for a vector.
  unfoldable pub push_all : List A → List A → List A
  push_all values list = list ++ values

  -- `front` of an empty list is undefined.
  unfoldable pub pop : List A → Outcome (A × List A)
  pop [] = stop undefined
  pop (x ∷ xs) = ok (x, xs)

  unfoldable pub empty : List A → Bool
  empty [] = true
  empty (x ∷ xs) = false

  unfoldable pub size : List A → ℕ
  size list = length list
