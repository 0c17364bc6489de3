-- ===== src/MergeRules/Folds.antt =====
-- Each view of the merged state is a fold of its own over the events.
use lengentic.Base.{All, ◌≡◌, refl, ap, ◌∙◌, List, [], ◌∷◌}
use lengentic.Base.Folds.{fold}
use lengentic.Base.Text.{Text}
use lengentic.Base.Assoc.{text_Eq}
use lengentic.MergeRules.{MergeEvent, EntityMergeState}
use lengentic.MergeRules.Views.{
  IsOk, start_view, start_step, completion_view, completion_step, status_step, clock_step, key_view,
  key_step,
}
use lengentic.MergeRules.Apply.{
  apply, start_view-apply_kind, completion_view-apply_kind, status-apply_kind, entity-apply_kind,
  clock-apply_kind, key_view-apply_kind,
}

module _ {V : Type 0} where
  pub start-fold :
      (es : List (MergeEvent V)) (s : EntityMergeState V)
      → start_view (fold apply s es) ≡ fold start_step (start_view s) es
  unfolding fold
  start-fold [] s = refl
  start-fold (e ∷ es) s =
      start-fold es (apply s e)
      ∙ ap (λ v. fold start_step v es) (start_view-apply_kind s e e.kind e.status)

  pub completion-fold :
      (es : List (MergeEvent V)) (s : EntityMergeState V)
      → All IsOk es
      → completion_view (fold apply s es) ≡ fold completion_step (completion_view s) es
  unfolding fold
  completion-fold [] s h = refl
  completion-fold (e ∷ es) s (p, h) =
      completion-fold es (apply s e) h
      ∙ ap (λ v. fold completion_step v es) (completion_view-apply_kind s e e.kind e.status p.0)

  pub status-fold :
      (es : List (MergeEvent V)) (s : EntityMergeState V)
      → (fold apply s es).status ≡ fold status_step s.status es
  unfolding fold
  status-fold [] s = refl
  status-fold (e ∷ es) s =
      status-fold es (apply s e)
      ∙ ap (λ v. fold status_step v es) (status-apply_kind s e e.kind e.status)

  pub clock-fold :
      (es : List (MergeEvent V)) (s : EntityMergeState V)
      → All IsOk es
      → (fold apply s es).last_event_at ≡ fold clock_step s.last_event_at es
  unfolding fold
  clock-fold [] s h = refl
  clock-fold (e ∷ es) s (p, h) =
      clock-fold es (apply s e) h
      ∙ ap (λ v. fold clock_step v es) (clock-apply_kind s e e.kind e.status p.0)

  pub key-fold :
      (k : Text) (es : List (MergeEvent V)) (s : EntityMergeState V)
      → All IsOk es
      → key_view k (fold apply s es) ≡ fold (key_step k) (key_view k s) es
  unfolding fold
  key-fold k [] s h = refl
  key-fold k (e ∷ es) s (p, h) =
      key-fold k es (apply s e) h
      ∙ ap (λ v. fold (key_step k) v es) (key_view-apply_kind s e k e.kind e.status p.0 p.1)

  pub entity-fold :
      (es : List (MergeEvent V)) (s : EntityMergeState V)
      → All IsOk es
      → (fold apply s es).entity_id ≡ s.entity_id
  unfolding fold
  entity-fold [] s h = refl
  entity-fold (e ∷ es) s (p, h) =
      entity-fold es (apply s e) h ∙ entity-apply_kind s e e.kind e.status
