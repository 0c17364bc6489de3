-- ===== src/Oracle/Resolve/Placed.antt =====
-- scripts/oracle.ts, `resolveGraph`: which nodes the loop over the waves of a phase places.
use mathlib.Core.Bool.{false≢true}
use mathlib.Core.List.{Memᴰ, append-nil}
use lengentic.Base.{
  ℕ, zero, suc, ◌+◌, ◌≡◌, ◌<◌, refl, sym, ap, subst, ◌∙◌, inl, inr, true, false, not, List, [], ◌∷◌,
  ◌++◌, map, arith, any-append, filter, All, Bool-cases, ◌⊎◌, any, leb,
}
use lengentic.Base.Text.{Text, text_eq}
use lengentic.Base.Assoc.{text_Eq}
use lengentic.Base.Arrays.{includes, is_nil}
use lengentic.Oracle.Graph.{Resolved}
use lengentic.Oracle.Resolve.{ById, is_placed, next_batch, place_waves, unfinished, waves_of}
use lengentic.Oracle.Resolve.Needs.{
  IsMet, IsUnmet, is_placed-IsUnmet, Waits, placed_ids, is_placed-IsMet, IsMet-placed, every-all,
  every-cases, Memᴰ-filter, Memᴰ-includes, lookup-Memᴰ,
}

-- What is met goes into the next batch.
next_batch-includes :
    (phase : ℕ) (by_id : ById) (placed : List Text) (remaining : List Resolved) (n : Resolved)
    → Memᴰ n remaining
    → ((d : Text) → includes d n.node.needs ≡ true → IsMet phase by_id placed d)
    → includes n.node.id (next_batch phase by_id placed remaining) ≡ true
unfolding next_batch
next_batch-includes phase by_id placed remaining n m met = Memᴰ-includes n _ (
    Memᴰ-filter _ n remaining m
      (every-all _ n.node.needs (λ d i. IsMet-placed phase by_id placed d (met d i))))

placed_ids-batch :
    (w : ℕ) (batch : List Text) (rest : List (Text × ℕ))
    → placed_ids (map (λ (id : Text). (id, w)) batch ++ rest) ≡ batch ++ placed_ids rest
placed_ids-batch w [] rest = refl
placed_ids-batch w (id ∷ batch) rest = ap (λ l. id ∷ l) (placed_ids-batch w batch rest)

batch_first :
    (w : ℕ) (batch : List Text) (rest : List (Text × ℕ)) (P : Text × ℕ → Type 0)
    → is_nil batch ≡ false
    → All P (map (λ id. (id, w)) batch ++ rest)
    → (id : Text) × P (id, w)
batch_first w [] rest P e h = absurd (false≢true (sym e))
batch_first w (id ∷ batch) rest P e (p, h) = (id, p)

rest_of :
    (w : ℕ) (batch : List Text) (rest : List (Text × ℕ)) (P : Text × ℕ → Type 0)
    → All P (map (λ id. (id, w)) batch ++ rest)
    → All P rest
rest_of w [] rest P h = h
rest_of w (id ∷ batch) rest P (p, h) = rest_of w batch rest P h

swapped : (x : Text) (a b c : List Text) → includes x ((a ++ b) ++ c) ≡ includes x (b ++ (a ++ c))
swapped x a b c = ground (
  arith,
  any-append (text_eq x) b (a ++ c),
  any-append (text_eq x) a c,
  any-append (text_eq x) (a ++ b) c,
  any-append (text_eq x) a b,
)

abbrev Settles : ℕ → ById → List Text → Resolved → ℕ → List (Text × ℕ) → Type 0
Settles phase by_id placed n limit all =
    ((d : Text) → includes d n.node.needs ≡ true → IsMet phase by_id (placed_ids all ++ placed) d)
    → All (λ (e : Text × ℕ). e.1 < limit) all
    → includes n.node.id (placed_ids all ++ placed) ≡ true

nil_includes : (x : Text) (xs : List Text) → is_nil xs ≡ true → includes x xs ≡ true → ⊥
nil_includes x [] e i = false≢true i
nil_includes x (y ∷ xs) e i = false≢true e

-- What the rounds after a batch settle, the rounds with it settle.
Settles-batch :
    (phase : ℕ) (by_id : ById) (placed batch : List Text) (n : Resolved) (limit w : ℕ)
    (rest : List (Text × ℕ))
    → (includes n.node.id (batch ++ placed) ≡ false
        → Settles phase by_id (batch ++ placed) n limit rest)
    → Settles phase by_id placed n limit (map (λ (id : Text). (id, w)) batch ++ rest)
Settles-batch phase by_id placed batch n limit w rest later met early =
    let ids = placed_ids rest in
    let joint = placed_ids-batch w batch rest in
    ap (λ l. includes n.node.id (l ++ placed)) joint
    ∙ swapped n.node.id batch ids placed
    ∙ elim (Bool-cases (includes n.node.id (batch ++ placed))) [
      | inl e ↦ any-append (text_eq n.node.id) ids (batch ++ placed) ∙ ground (arith, e)
      | inr e ↦
          later e
            (λ d i dep q same waits.
              sym (swapped d batch ids placed)
              ∙ sym (ap (λ l. includes d (l ++ placed)) joint)
              ∙ met d i dep q same waits)
            (rest_of w batch rest _ early)
    ]

-- A round settles what it settles when its batch is not empty.
round-Settles :
    (k w phase : ℕ) (by_id : ById) (placed : List Text) (remaining : List Resolved) (n : Resolved)
    (limit : ℕ)
    → Memᴰ n remaining
    → (is_nil (next_batch phase by_id placed remaining) ≡ false
        → Settles phase by_id placed n limit (
            map (λ (id : Text). (id, w)) (next_batch phase by_id placed remaining)
            ++ place_waves k
                (suc w)
                phase
                by_id
                (next_batch phase by_id placed remaining ++ placed)
                (filter
                  (λ (x : Resolved).
                    not (includes x.node.id (next_batch phase by_id placed remaining ++ placed)))
                  remaining)))
    → Settles phase by_id placed n limit (place_waves (suc k) w phase by_id placed remaining)
unfolding place_waves
round-Settles k w phase by_id placed remaining n limit m later =
    elim (Bool-cases (is_nil (next_batch phase by_id placed remaining))) [
      | inl e ↦ rw e (λ met early.
          absurd
            (nil_includes n.node.id _ e (next_batch-includes phase by_id placed remaining n m met)))
      | inr e ↦ rw e (later e)
    ]

-- Whatever waits, with every need met in the end, is placed, or a wave is as late as the last round.
place_waves-Settles :
    (k w phase : ℕ) (by_id : ById) (placed : List Text) (remaining : List Resolved) (n : Resolved)
    → Memᴰ n remaining
    → Settles phase by_id placed n (w + k) (place_waves (suc k) w phase by_id placed remaining)
place_waves-Settles zero w phase by_id placed remaining n m =
    round-Settles zero w phase by_id placed remaining n (w + 0) m (λ e met early.
      let (id, b) = batch_first w (next_batch phase by_id placed remaining) _ _ e early in
      absurd (omega (arith, b)))
place_waves-Settles (suc k) w phase by_id placed remaining n m =
    let batch = next_batch phase by_id placed remaining in
    let left = filter (λ (x : Resolved). not (includes x.node.id (batch ++ placed))) remaining in
    let rest = place_waves (suc k) (suc w) phase by_id (batch ++ placed) left in
    let same : suc w + k ≡ w + suc k = omega arith in
    round-Settles (suc k) w phase by_id placed remaining n (w + suc k) m (λ e.
      Settles-batch phase by_id placed batch n (w + suc k) w rest (λ out.
        subst (λ limit. Settles phase by_id (batch ++ placed) n limit rest) same
          (place_waves-Settles k (suc w) phase by_id (batch ++ placed) left n
            (Memᴰ-filter _ n remaining m (ground (arith, out))))))

-- The node has a wave, or an unfinished need of the phase that has none, or wave 19 is given.
abbrev pub IsSettled : ℕ → ById → List (Text × ℕ) → Resolved → Type 0
IsSettled phase by_id waves n =
    (includes n.node.id (placed_ids waves) ≡ true)
    ⊎ (((d : Text) × (includes d n.node.needs ≡ true) × IsUnmet phase by_id (placed_ids waves) d)
        ⊎ (any (λ (e : Text × ℕ). leb 19 e.1) waves ≡ true))

waves_of-includes :
    (phase : ℕ) (by_id : ById) (n : Resolved)
    → Waits phase by_id n
    → ((d : Text)
        → includes d n.node.needs ≡ true
        → IsMet phase by_id (placed_ids (waves_of phase by_id)) d)
    → All (λ (e : Text × ℕ). e.1 < 19) (waves_of phase by_id)
    → includes n.node.id (placed_ids (waves_of phase by_id)) ≡ true
unfolding waves_of
waves_of-includes phase by_id n (found, same, waits) met early =
    let waves = placed_ids (place_waves 19 1 phase by_id [] (unfinished phase by_id)) in
    let mem : Memᴰ n (unfinished phase by_id) =
      Memᴰ-filter _ n _
        (Memᴰ-filter _ n _ (lookup-Memᴰ n.node.id n by_id found) (ground (arith, same)))
        (ground (arith, waits)) in
    subst (λ l. includes n.node.id l ≡ true) (append-nil waves)
      (place_waves-Settles 18 1 phase by_id [] (unfinished phase by_id) n mem
        (λ d i. subst (λ l. IsMet phase by_id l d) (sym (append-nil waves)) (met d i)) early)

early-All :
    (waves : List (Text × ℕ))
    → any (λ (e : Text × ℕ). leb 19 e.1) waves ≡ false
    → All (λ (e : Text × ℕ). e.1 < 19) waves
early-All [] h = tt
early-All (e ∷ waves) h = (ground (arith, h), early-All waves (ground (arith, h)))

-- No unfinished node of the phase is left out for nothing.
pub waves_of-IsSettled :
    (phase : ℕ) (by_id : ById) (n : Resolved)
    → Waits phase by_id n
    → IsSettled phase by_id (waves_of phase by_id) n
waves_of-IsSettled phase by_id n w =
    let waves = waves_of phase by_id in
    elim (every-cases (is_placed phase by_id (placed_ids waves)) n.node.needs) [
      | inr (d, i, h) ↦ inr (inl (d, i, is_placed-IsUnmet phase by_id (placed_ids waves) d h))
      | inl f ↦ elim (Bool-cases (any (λ (e : Text × ℕ). leb 19 e.1) waves)) [
        | inl late ↦ inr (inr late)
        | inr early ↦ inl (
            waves_of-includes phase by_id n w
              (λ d i. is_placed-IsMet phase by_id (placed_ids waves) d (f d i))
              (early-All waves early))
      ]
    ]
