-- ===== src/MergeRules/Arrival.antt =====
-- The merged state does not depend on the order in which events arrive.
use mathlib.Core.List.{Permᴰ}
use lengentic.Base.{or_else, All, ◌≡◌, refl, sym, ap, ◌∙◌, Option, none, some, List, [], ◌∷◌, arith}
use lengentic.Base.Folds.{fold, fold-perm, All-perm, length-perm, HasDistinct}
use lengentic.Base.Text.{Text}
use lengentic.Base.Assoc.{lookup, text_Eq}
use lengentic.MergeRules.{MergeEvent, EntityMergeState, empty_state, merge_event, merge_events}
use lengentic.MergeRules.Views.{
  IsOk, start_view, start_step, completion_view, completion_step, status_step, clock_step, key_view,
  key_step,
}
use lengentic.MergeRules.Folds.{
  start-fold, completion-fold, status-fold, clock-fold, key-fold, entity-fold,
}
use lengentic.MergeRules.Apply.{apply, merge_events-apply}
use lengentic.MergeRules.Commute.{
  StartInv, CompletionInv, KeyInv, start_keep, completion_keep, kinds_start, kinds_completion,
  kinds_key, status_commute, clock_commute, key_keep,
}

-- Two states that no reader of a column or of a field can tell apart.
pub record Same {V : Type 0} (s t : EntityMergeState V) : Type 0 where
  pub entity_id : s.entity_id ≡ t.entity_id
  pub status : s.status ≡ t.status
  pub start : start_view s ≡ start_view t
  pub completion : completion_view s ≡ completion_view t
  pub last_event_at : s.last_event_at ≡ t.last_event_at
  pub key : (k : Text) → key_view k s ≡ key_view k t

-- The instants that a state stores parse, and the id of an event stands beside each.
pub record IsValid {V : Type 0} (s : EntityMergeState V) : Type 0 where
  pub start : StartInv (start_view s)
  pub completion : CompletionInv (completion_view s)
  pub key : (k : Text) → KeyInv (key_view k s)

module _ {V : Type 0} where
  -- Two orders of the same events, from one state.
  module _ (s : EntityMergeState V) (valid : IsValid s) {es fs : List (MergeEvent V)}
      (perm : Permᴰ es fs) (ok : All IsOk es)
      (distinct : HasDistinct (λ (e : MergeEvent V). e.event_id) es) where
    start-perm : start_view (fold apply s es) ≡ start_view (fold apply s fs)
    start-perm =
        start-fold es s
        ∙ fold-perm (λ e. e.event_id) start_step IsOk StartInv
            (λ c e i o. start_keep e.kind c e i o.1)
            (λ c a b i oa ob ne. kinds_start a b oa ob ne a.kind b.kind c i) perm (start_view s)
            valid.start ok distinct
        ∙ sym (start-fold fs s)

    completion-perm : completion_view (fold apply s es) ≡ completion_view (fold apply s fs)
    completion-perm =
        completion-fold es s ok
        ∙ fold-perm (λ e. e.event_id) completion_step IsOk CompletionInv
            (λ c e i o. completion_keep e.kind c e i o.1)
            (λ c a b i oa ob ne. kinds_completion a b oa ob ne a.kind b.kind c i) perm
            (completion_view s) valid.completion ok distinct
        ∙ sym (completion-fold fs s (All-perm IsOk perm ok))

    status-perm : (fold apply s es).status ≡ (fold apply s fs).status
    status-perm =
        status-fold es s
        ∙ fold-perm (λ e. e.event_id) status_step IsOk (λ _. Unit) (λ c e i o. tt)
            (λ c a b i oa ob ne. status_commute a.kind b.kind a.status b.status c) perm s.status tt
            ok distinct
        ∙ sym (status-fold fs s)

    clock-perm : (fold apply s es).last_event_at ≡ (fold apply s fs).last_event_at
    clock-perm =
        clock-fold es s ok
        ∙ fold-perm (λ e. e.event_id) clock_step IsOk (λ _. Unit) (λ c e i o. tt)
            (λ c a b i oa ob ne. ap some (clock_commute c a.received_at b.received_at)) perm
            s.last_event_at tt ok distinct
        ∙ sym (clock-fold fs s (All-perm IsOk perm ok))

    key-perm : (k : Text) → key_view k (fold apply s es) ≡ key_view k (fold apply s fs)
    key-perm k =
        key-fold k es s ok
        ∙ fold-perm (λ e. e.event_id) (key_step k) IsOk KeyInv
            (λ c e i o. key_keep k e.kind c e i o.1)
            (λ c a b i oa ob ne. kinds_key a b oa ob ne k a.kind b.kind c i) perm (key_view k s)
            (valid.key k) ok distinct
        ∙ sym (key-fold k fs s (All-perm IsOk perm ok))

    fold-Same : Same (fold apply s es) (fold apply s fs)
    fold-Same = record {
      entity_id = entity-fold es s ok ∙ sym (entity-fold fs s (All-perm IsOk perm ok));
      status = status-perm;
      start = start-perm;
      completion = completion-perm;
      last_event_at = clock-perm;
      key = key-perm;
    }

  -- The empty state stores no instant.
  pub empty_state-IsValid : (id : Text) → IsValid (empty_state {V = V} id)
  unfolding empty_state lookup
  empty_state-IsValid id = record { start = tt; completion = tt; key = λ k. tt }

  -- The state that a first event meets: the stored one, or the empty state of the entity.
  abbrev pub IsValidCurrent : Option (EntityMergeState V) → Type 0
  IsValidCurrent none = Unit
  IsValidCurrent (some s) = IsValid s

  abbrev pub SameResult : Option (EntityMergeState V) → Option (EntityMergeState V) → Type 0
  SameResult none none = Unit
  SameResult (some s) (some t) = Same s t
  SameResult _ _ = ⊥

  base_IsValid :
      (id : Text) (current : Option (EntityMergeState V))
      → IsValidCurrent current
      → IsValid (or_else current (empty_state id))
  base_IsValid id none v = empty_state-IsValid id
  base_IsValid id (some s) v = v

  abbrev final :
      Text → Option (EntityMergeState V) → List (MergeEvent V) → Option (EntityMergeState V)
  final id current [] = current
  final id current (e ∷ es) = some (fold apply (or_else current (empty_state id)) (e ∷ es))

  abbrev pub IsFor : Text → MergeEvent V → Type 0
  IsFor id e = (e.entity_id ≡ id) × IsOk e

  All-IsOk : (id : Text) (es : List (MergeEvent V)) → All (IsFor id) es → All IsOk es
  All-IsOk id [] h = tt
  All-IsOk id (e ∷ es) (p, h) = (p.1, All-IsOk id es h)

  -- A first event creates the entity under its own id.
  merge_events-final :
      (id : Text) (current : Option (EntityMergeState V)) (es : List (MergeEvent V))
      → All (IsFor id) es
      → merge_events current es ≡ some (final id current es)
  unfolding merge_events merge_event fold
  merge_events-final id current [] ok = refl
  merge_events-final id none (e ∷ es) ok =
      ap (λ i. merge_events (some (empty_state i)) (e ∷ es)) ok.0.0
      ∙ merge_events-apply (e ∷ es) (empty_state id) (All-IsOk id (e ∷ es) ok)
  merge_events-final id (some s) (e ∷ es) ok =
      merge_events-apply (e ∷ es) s (All-IsOk id (e ∷ es) ok)

  SameResult-refl : (r : Option (EntityMergeState V)) → SameResult r r
  SameResult-refl none = tt
  SameResult-refl (some s) = record {
    entity_id = refl;
    status = refl;
    start = refl;
    completion = refl;
    last_event_at = refl;
    key = λ k. refl;
  }

  final-Same :
      (id : Text) (current : Option (EntityMergeState V)) (es fs : List (MergeEvent V))
      → IsValidCurrent current
      → Permᴰ es fs
      → All IsOk es
      → HasDistinct (λ (e : MergeEvent V). e.event_id) es
      → SameResult (final id current es) (final id current fs)
  final-Same id current [] [] v p ok d = SameResult-refl current
  final-Same id current [] (f ∷ fs) v p ok d = absurd (omega (arith, length-perm p))
  final-Same id current (e ∷ es) [] v p ok d = absurd (omega (arith, length-perm p))
  final-Same id current (e ∷ es) (f ∷ fs) v p ok d =
      fold-Same (or_else current (empty_state id)) (base_IsValid id current v) p ok d

  -- Events of one entity with different ids, whose instants parse and whose completions carry a
  -- status, are all merged, in whatever order they arrive and whatever is stored already; and
  -- any two orders of arrival leave states with the same columns and, key by key, the same
  -- completion fields and origins.
  pub merge_events-perm :
      (id : Text) (current : Option (EntityMergeState V)) (es fs : List (MergeEvent V))
      → IsValidCurrent current
      → Permᴰ es fs
      → All (IsFor id) es
      → HasDistinct (λ (e : MergeEvent V). e.event_id) es
      → (r t : Option (EntityMergeState V)) × (merge_events current es ≡ some r)
        × (merge_events current fs ≡ some t)
        × SameResult r t
  merge_events-perm id current es fs v p ok d = (
    final id current es,
    final id current fs,
    merge_events-final id current es ok,
    merge_events-final id current fs (All-perm (IsFor id) p ok),
    final-Same id current es fs v p (All-IsOk id es ok) d,
  )
