-- ===== src/Dashboard/Timeline/Totality.antt =====
-- The timeline accounts for each step of the run.
use mathlib.Core.List.{Permᴰ}
use mathlib.Core.List.Permᴰ.{nil, cons, swap, trans}
use lengentic.Base.{
  ℕ, ◌+◌, ◌≡◌, refl, ap, ◌∙◌, Bool, not, List, [], ◌∷◌, filter, map, count, if◌then◌else◌, arith,
  Bool-cases, inl, inr,
}
use lengentic.Base.Text.{Text}
use lengentic.Base.Sort.{sort, sort-perm}
use lengentic.Dashboard.Views.{StepView, RunDetailView}
use lengentic.Dashboard.Timeline.{
  place, is_placeable, compute_window, build_run_timeline, by_client_clock_then_id,
}

module _ {A : Type 0} (p : A → Bool) where
  count-perm : {xs ys : List A} → Permᴰ xs ys → count p xs ≡ count p ys
  count-perm nil = refl
  count-perm (cons e h) = ground (arith, count-perm h, ap p e)
  count-perm (swap e f) = ground (arith, ap p e, ap p f)
  count-perm (trans h k) = count-perm h ∙ count-perm k

  -- What is kept and what is left out are everything.
  count-halves :
      (q : A → Bool) (xs : List A)
      → count p (filter q xs) + count p (filter (λ x. not (q x)) xs) ≡ count p xs
  count-halves q [] = omega arith
  count-halves q (x ∷ xs) = elim (Bool-cases (q x)) [
    | inl kept ↦ rw kept (omega (arith, count-halves q xs))
    | inr left ↦ rw left (omega (arith, count-halves q xs))
  ]

count-map :
    {A B : Type 0} (p : B → Bool) (f : A → B) (xs : List A)
    → count p (map f xs) ≡ count (λ x. p (f x)) xs
count-map p f [] = refl
count-map p f (x ∷ xs) = ap (λ n. (if p (f x) then 1 else 0) + n) (count-map p f xs)

-- Of the steps that pass any test, the entries and the unplaced steps have as many as the run: each
-- step leaves the timeline once.
build_run_timeline-total :
    (to_iso_string : ℕ → Text) (run : RunDetailView) (p : StepView → Bool)
    → count (λ e. p e.step) (build_run_timeline to_iso_string run).entries
        + count p (build_run_timeline to_iso_string run).unplaced
      ≡ count p run.steps
unfolding build_run_timeline place
build_run_timeline-total to_iso_string run p =
    let placeable = filter is_placeable run.steps in
    omega (
      arith,
      count-map (λ e. p e.step) (λ step. place step (compute_window to_iso_string run))
          (sort by_client_clock_then_id placeable),
      count-perm p (sort-perm by_client_clock_then_id placeable),
      count-halves p is_placeable run.steps,
    )
