-- ===== src/TelemetrySdk/BoundedQueue/History.antt =====
-- A queue over any sequence of calls.
use mathlib.Core.List.{append_assoc, append-nil}
use mathlib.Core.Option.{none-ne-some, some-injective}
use lengentic.Base.{
  ℕ, zero, suc, ◌+◌, ◌≤◌, ◌≡◌, refl, sym, ap, ◌∙◌, some, List, [], ◌∷◌, ◌++◌, length, length-append,
  ltb, arith, Bool-cases, inl, inr, subst,
}
use lengentic.TelemetrySdk.BoundedQueue.{BoundedQueue, new_queue, shift_while, push, splice, take}

pub data Call {ℓ} (T : Type ℓ) : Type ℓ where
  pushing : T → Call T
  taking : ℕ → Call T

module _ {ℓ} {T : Type ℓ} where
  -- The queue after the calls, and all that was taken from it.
  unfoldable pub after_calls : List (Call T) → BoundedQueue T × List T → BoundedQueue T × List T
  after_calls [] s = s
  after_calls (pushing x ∷ calls) (q, taken) = after_calls calls ((push x q).0, taken)
  after_calls (taking n ∷ calls) (q, taken) =
      after_calls calls ((take n q).0, taken ++ (take n q).1)

  abbrev pub pushed : List (Call T) → List T
  pushed [] = []
  pushed (pushing x ∷ calls) = x ∷ pushed calls
  pushed (taking n ∷ calls) = pushed calls

  pub shift_while-suffix :
      (capacity : ℕ) (xs : List T)
      → let (left, dropped) = shift_while capacity xs in
        (gone : List T) × (xs ≡ gone ++ left) × (length gone ≡ dropped) × (length left ≤ capacity)
  unfolding shift_while
  shift_while-suffix capacity [] = ([], refl, refl, omega arith)
  shift_while-suffix capacity (x ∷ xs) =
      let (gone, e, n, small) = shift_while-suffix capacity xs in
      elim (Bool-cases (ltb capacity (length (x ∷ xs)))) [
        | inl over ↦ rw over (x ∷ gone, ap (λ ys. x ∷ ys) e, ap suc n, small)
        | inr fits ↦ rw fits ([], refl, refl, ground arith)
      ]

  pub splice-append : (n : ℕ) (xs : List T) → let (taken, left) = splice n xs in xs ≡ taken ++ left
  unfolding splice
  splice-append zero xs = refl
  splice-append (suc n) [] = refl
  splice-append (suc n) (x ∷ xs) = ap (λ ys. x ∷ ys) (splice-append n xs)

  -- The items are the newest of all that was pushed; what came before them was taken or dropped.
  abbrev pub IsNewest : ℕ → List T → BoundedQueue T × List T → Type ℓ
  IsNewest capacity history s =
      (earlier : List T) × (history ≡ earlier ++ s.0.items)
      × (length earlier ≡ s.0.dropped_count + length s.1)
      × (s.0.capacity ≡ capacity)
      × (length s.0.items ≤ capacity)

  push-IsNewest :
      (capacity : ℕ) (history : List T) (x : T) (q : BoundedQueue T) (taken : List T)
      → IsNewest capacity history (q, taken)
      → IsNewest capacity (history ++ x ∷ []) ((push x q).0, taken)
  unfolding push
  push-IsNewest capacity history x q taken (earlier, e, n, same, small) =
      let (gone, split, m, fits) = shift_while-suffix q.capacity (q.items ++ x ∷ []) in
      (
        earlier ++ gone,
        ap (λ h. h ++ x ∷ []) e
            ∙ append_assoc earlier q.items (x ∷ [])
            ∙ ap (λ ys. earlier ++ ys) split
            ∙ sym (append_assoc earlier gone _),
        omega (arith, length-append earlier gone, n, m),
        same,
        omega (arith, same, fits),
      )

  take-IsNewest :
      (capacity : ℕ) (history : List T) (count : ℕ) (q : BoundedQueue T) (taken : List T)
      → IsNewest capacity history (q, taken)
      → IsNewest capacity history ((take count q).0, taken ++ (take count q).1)
  unfolding take
  take-IsNewest capacity history count q taken (earlier, e, n, same, small) =
      let (out, left) = splice count q.items in
      let split = splice-append count q.items in
      (
        earlier ++ out,
        e ∙ ap (λ ys. earlier ++ ys) split ∙ sym (append_assoc earlier out left),
        omega (arith, length-append earlier out, length-append taken out, n),
        same,
        omega (arith, ap length split, length-append out left, small),
      )

  after_calls-from :
      (capacity : ℕ) (calls : List (Call T)) (history : List T) (s : BoundedQueue T × List T)
      → IsNewest capacity history s
      → IsNewest capacity (history ++ pushed calls) (after_calls calls s)
  unfolding after_calls
  after_calls-from capacity [] history s h = rw (append-nil history) h
  after_calls-from capacity (pushing x ∷ calls) history (q, taken) h =
      rw (sym (append_assoc history (x ∷ []) (pushed calls))) (
        after_calls-from capacity calls (history ++ x ∷ []) _
          (push-IsNewest capacity history x q taken h))
  after_calls-from capacity (taking n ∷ calls) history (q, taken) h =
      after_calls-from capacity calls history _ (take-IsNewest capacity history n q taken h)

  pub new_queue-IsNewest :
      (capacity : ℕ) (q : BoundedQueue T)
      → new_queue capacity ≡ some q
      → IsNewest capacity [] (q, [])
  unfolding new_queue
  new_queue-IsNewest zero q made = absurd (none-ne-some q (ground arith))
  new_queue-IsNewest (suc n) q made =
      let empty : BoundedQueue T = record { capacity = suc n; items = []; dropped_count = 0 } in
      subst (λ r. IsNewest (suc n) [] (r, [])) (some-injective empty q (ground arith))
        ([], refl, refl, refl, omega arith)

  -- After any calls of `push` and `take` on a new queue it holds at most its capacity, its items
  -- are the last ones pushed, in order, and every earlier one is counted as taken or dropped.
  pub after_calls-IsNewest :
      (capacity : ℕ) (q : BoundedQueue T) (calls : List (Call T))
      → new_queue capacity ≡ some q
      → IsNewest capacity (pushed calls) (after_calls calls (q, []))
  after_calls-IsNewest capacity q calls made =
      after_calls-from capacity calls [] (q, []) (new_queue-IsNewest capacity q made)
