-- ===== src/MergeRules/Apply.antt =====
-- One event that `mergeEvent` accepts acts on each view of the state apart from the others.
use lengentic.Base.{or_else, All, ◌≡◌, refl, Option, none, some, List, [], ◌∷◌, arith}
use lengentic.Base.Folds.{fold}
use lengentic.Base.Text.{Text}
use lengentic.Base.Assoc.{text_Eq}
use lengentic.MergeRules.{
  MergeEvent, MergeTerminalStatus, EntityMergeState, MergeEventKind, start, completion, origin_of,
  merge_start, merge_completion, merge_kind, merge_event, merge_events,
}
use lengentic.MergeRules.Order.{IsParsed, later_self}
use lengentic.MergeRules.Views.{
  HasStatus, IsOk, start_view, start_kind, completion_view, completion_kind, status_kind,
  clock_step, key_view, key_kind, merge_fields-key,
}

module _ {V : Type 0} where
  abbrev pub apply_kind :
      MergeEventKind
      → Option MergeTerminalStatus
      → EntityMergeState V
      → MergeEvent V
      → EntityMergeState V
  apply_kind start status base e = merge_start base e
  apply_kind completion none base e = base
  apply_kind completion (some status) base e = merge_completion base e status

  abbrev pub apply : EntityMergeState V → MergeEvent V → EntityMergeState V
  apply base e = apply_kind e.kind e.status base e

  merge_kind-apply :
      (kind : MergeEventKind) (status : Option MergeTerminalStatus) (base : EntityMergeState V)
      (e : MergeEvent V)
      → HasStatus kind status
      → merge_kind kind status base e ≡ some (apply_kind kind status base e)
  unfolding merge_kind
  merge_kind-apply start status base e h = refl
  merge_kind-apply completion none base e h = absurd h
  merge_kind-apply completion (some status) base e h = refl

  pub merge_events-apply :
      (es : List (MergeEvent V)) (s : EntityMergeState V)
      → All IsOk es
      → merge_events (some s) es ≡ some (some (fold apply s es))
  unfolding merge_events fold merge_event
  merge_events-apply [] s h = refl
  merge_events-apply (e ∷ es) s (p, h) =
      rw (merge_kind-apply e.kind e.status s e p.0, merge_event, merge_events)
        (merge_events-apply es (apply s e) h)

module _ {V : Type 0} (base : EntityMergeState V) (e : MergeEvent V) where
  pub start_view-apply_kind :
      (kind : MergeEventKind) (status : Option MergeTerminalStatus)
      → start_view (apply_kind kind status base e) ≡ start_kind kind (start_view base) e
  unfolding merge_start merge_completion
  start_view-apply_kind start status = ground arith
  start_view-apply_kind completion none = refl
  start_view-apply_kind completion (some status) = refl

  pub completion_view-apply_kind :
      (kind : MergeEventKind) (status : Option MergeTerminalStatus)
      → HasStatus kind status
      → completion_view (apply_kind kind status base e)
        ≡ completion_kind kind (completion_view base) e
  unfolding merge_start merge_completion
  completion_view-apply_kind start status h = refl
  completion_view-apply_kind completion none h = absurd h
  completion_view-apply_kind completion (some status) h = ground arith

  pub status-apply_kind :
      (kind : MergeEventKind) (status : Option MergeTerminalStatus)
      → (apply_kind kind status base e).status ≡ status_kind kind status base.status
  unfolding merge_start merge_completion
  status-apply_kind start status = refl
  status-apply_kind completion none = refl
  status-apply_kind completion (some status) = refl

  pub entity-apply_kind :
      (kind : MergeEventKind) (status : Option MergeTerminalStatus)
      → (apply_kind kind status base e).entity_id ≡ base.entity_id
  unfolding merge_start merge_completion
  entity-apply_kind start status = refl
  entity-apply_kind completion none = refl
  entity-apply_kind completion (some status) = refl

  pub clock-apply_kind :
      (kind : MergeEventKind) (status : Option MergeTerminalStatus)
      → HasStatus kind status
      → (apply_kind kind status base e).last_event_at ≡ clock_step base.last_event_at e
  unfolding merge_start merge_completion
  clock-apply_kind start status h = refl
  clock-apply_kind completion none h = absurd h
  clock-apply_kind completion (some status) h = refl

  pub key_view-apply_kind :
      (k : Text) (kind : MergeEventKind) (status : Option MergeTerminalStatus)
      → HasStatus kind status
      → IsParsed e.occurred_at
      → key_view k (apply_kind kind status base e) ≡ key_kind kind k (key_view k base) e
  unfolding merge_start merge_completion
  key_view-apply_kind k start status h p = refl
  key_view-apply_kind k completion none h p = absurd h
  key_view-apply_kind k completion (some status) h p =
      merge_fields-key k (origin_of e) e.fields
        (or_else base.completion_fields [], base.completion_field_origins)
        (later_self (origin_of e) (unfold origin_of in p))
