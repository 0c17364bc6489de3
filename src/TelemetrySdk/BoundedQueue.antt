-- ===== src/TelemetrySdk/BoundedQueue.antt =====
-- platform/telemetry-sdk/src/bounded-queue.ts. A queue is a value and an operation returns the
-- next one. A capacity is whole by its type; `take` is called with a natural number.
pub mod History
use lengentic.Base.{
  ℕ, zero, suc, ◌+◌, Bool, Option, none, some, List, [], ◌∷◌, ◌++◌, length, ltb, if◌then◌else◌,
}

pub record BoundedQueue {ℓ} (T : Type ℓ) : Type ℓ where
  pub capacity : ℕ
  pub items : List T
  pub dropped_count : ℕ

module _ {ℓ} {T : Type ℓ} where
  -- The constructor; `none` is its `RangeError`.
  unfoldable pub new_queue : ℕ → Option (BoundedQueue T)
  new_queue capacity =
      if ltb capacity 1
      then none
      else some (record { capacity = capacity; items = []; dropped_count = 0 })

  -- The loop of `push`: what is left of the items, and how many were shifted.
  unfoldable pub shift_while : ℕ → List T → List T × ℕ
  shift_while capacity [] = ([], 0)
  shift_while capacity (x ∷ xs) =
      let (left, dropped) = shift_while capacity xs in
      if ltb capacity (length (x ∷ xs)) then (left, suc dropped) else (x ∷ xs, 0)

  unfoldable pub push : T → BoundedQueue T → BoundedQueue T × ℕ
  push item q =
      let (left, dropped) = shift_while q.capacity (q.items ++ item ∷ []) in
      (record q { items = left; dropped_count = q.dropped_count + dropped }, dropped)

  -- `splice(0, count)`: what is removed, and what is left.
  unfoldable pub splice : ℕ → List T → List T × List T
  splice zero xs = ([], xs)
  splice (suc n) [] = ([], [])
  splice (suc n) (x ∷ xs) = let (taken, left) = splice n xs in (x ∷ taken, left)

  unfoldable pub take : ℕ → BoundedQueue T → BoundedQueue T × List T
  take count q = let (taken, left) = splice count q.items in (record q { items = left }, taken)
