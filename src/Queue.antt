-- ===== src/Queue.antt =====
-- include/thread-safe-queue.h. The mutex makes each method one atomic step; a `pop` that waits is a
-- step that is not taken yet.
pub mod Laws
use sync_harbor.Base.{ℕ, Bool, true, false, Option, none, some, List, [], ◌∷◌, ◌++◌, length}

-- The oldest element stands first.
pub record Queue {ℓ} (T : Type ℓ) : Type ℓ where
  pub items : List T
  pub closed : Bool

-- What `pop` does when it is scheduled.
pub data Popped {ℓ} (T : Type ℓ) : Type ℓ where
  waits : Popped T
  gives : T → Queue T → Popped T
  ends : Popped T

module _ {ℓ} {T : Type ℓ} where
  unfoldable pub empty_queue : Queue T
  empty_queue = record { items = []; closed = false }

  -- `push(U&&)`
  unfoldable pub push : Queue T → T → Queue T
  push q request = record q { items = q.items ++ (request ∷ []) }

  -- `push(std::vector<T>&&)`
  unfoldable pub push_all : Queue T → List T → Queue T
  unfolding push
  push_all q [] = q
  push_all q (elem ∷ request_vec) = push_all (push q elem) request_vec

  take_front : List T → Queue T → Option (T × Queue T)
  take_front [] q = none
  take_front (front ∷ rest) q = some (front, record q { items = rest })

  -- `try_pop`
  unfoldable pub try_pop : Queue T → Option (T × Queue T)
  unfolding take_front
  try_pop q = take_front q.items q

  take_or_end : List T → Queue T → Popped T
  take_or_end [] q = elim q.closed [ true ↦ ends | false ↦ waits ]
  take_or_end (front ∷ rest) q = gives front (record q { items = rest })

  -- `pop`
  unfoldable pub pop : Queue T → Popped T
  unfolding take_or_end
  pop q = take_or_end q.items q

  is_none : List T → Bool
  is_none [] = true
  is_none (x ∷ xs) = false

  -- `empty`
  unfoldable pub is_empty : Queue T → Bool
  unfolding is_none
  is_empty q = is_none q.items

  -- `close`
  unfoldable pub close : Queue T → Queue T
  close q = record q { closed = true }

  -- `size`
  unfoldable pub size : Queue T → ℕ
  size q = length q.items
