-- ===== src/TelemetrySdk/Client/Balance.antt =====
-- What holds of a client between two steps.
use lengentic.Base.{
  ℕ, suc, ◌+◌, ◌≤◌, ◌≡◌, refl, ap, Option, some, [], ◌∷◌, ◌++◌, length, length-append, arith,
}
use lengentic.Base.Text.{Text}
use lengentic.TelemetrySdk.BoundedQueue.{BoundedQueue, push, take, shift_while, splice}
use lengentic.TelemetrySdk.BoundedQueue.History.{shift_while-suffix, splice-append}
use lengentic.TelemetrySdk.Client.{
  ClientConfig, Pump, idle, sending, waiting, Client, total_dropped, start_delivery, pump_on,
}

module _ {E : Type 0} where
  pub push-counts :
      (x : E) (q : BoundedQueue E)
      → let q' = (push x q).0 in
        (length q'.items + q'.dropped_count ≡ suc (length q.items + q.dropped_count))
        × (q.dropped_count ≤ q'.dropped_count)
        × (length q'.items ≤ q'.capacity)
  unfolding push
  push-counts x q =
      let (gone, split, n, fits) = shift_while-suffix q.capacity (q.items ++ x ∷ []) in
      let total = ap length split in
      (
        omega (
          arith,
          n,
          total,
          length-append q.items (x ∷ []),
          length-append gone (shift_while q.capacity (q.items ++ x ∷ [])).0,
        ),
        omega arith,
        fits,
      )

  pub take-counts :
      (n : ℕ) (q : BoundedQueue E)
      → let (q', taken) = take n q in
        (length taken + length q'.items ≡ length q.items)
        × (q'.dropped_count ≡ q.dropped_count)
        × (q'.capacity ≡ q.capacity)
  unfolding take
  take-counts n q = (
    omega (
      arith,
      ap length (splice-append n q.items),
      length-append (splice n q.items).0 (splice n q.items).1,
    ),
    refl,
    refl,
  )

  abbrev pub in_flight : Pump E → ℕ
  in_flight idle = 0
  in_flight (sending d) = length d.batch
  in_flight (waiting d) = length d.batch

  abbrev pub carried : Pump E → ℕ
  carried idle = 0
  carried (sending d) = d.dropped_since_last_batch
  carried (waiting d) = d.dropped_since_last_batch

  -- Every recorded event is queued, dropped by the queue, among `n`, delivered or lost; and no
  -- more drops have been reported, `r` among them, than there are.
  pub record Balance (n r : ℕ) (s : Client E) : Type 0 where
    pub conserved :
        s.counters.recorded
        ≡ length s.queue.items
          + s.queue.dropped_count
          + n
          + s.counters.delivered
          + s.counters.dropped_undeliverable
    pub reported : s.acknowledged_drops + r ≤ total_dropped s
    pub sized : length s.queue.items ≤ s.queue.capacity

  -- A batch under way carries the pending id, and counts its attempts within the budget.
  abbrev pub IsTracked : ClientConfig → Option Text → Pump E → Type 0
  IsTracked config id idle = Unit
  IsTracked config id (sending d) =
      (id ≡ some d.delivery_id) × (1 ≤ d.attempt) × (d.attempt ≤ suc config.max_retries)
  IsTracked config id (waiting d) =
      (id ≡ some d.delivery_id) × (1 ≤ d.attempt) × (d.attempt ≤ config.max_retries)

  pub record Inv (config : ClientConfig) (s : Client E) : Type 0 where
    pub balance : Balance (in_flight s.pump) (carried s.pump) s
    pub tracked : IsTracked config s.pending_delivery_id s.pump

  module _ (config : ClientConfig) where
    start_delivery-Inv :
        (fresh : Text) (s : Client E) → Balance 0 0 s → Inv config (start_delivery config fresh s)
    unfolding start_delivery
    start_delivery-Inv fresh s h = ground (arith, take-counts config.max_batch_size s.queue)

    pub pump_on-Inv :
        (fresh : Text) (s : Client E) → Balance 0 0 s → Inv config (pump_on config fresh s)
    unfolding pump_on
    pump_on-Inv fresh s h = ground (arith, start_delivery-Inv fresh s)
