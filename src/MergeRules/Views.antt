-- ===== src/MergeRules/Views.antt =====
-- The parts of a merge state that `mergeEvent` resolves apart from one another, and what one
-- event does to each.
use lengentic.Base.{
  ℕ, ◌≡◌, refl, ap, ◌∙◌, Bool, false, Option, none, some, [], ◌∷◌, arith, Bool-cases, if◌then◌else◌,
  or_else, inl, inr, is_none,
}
use lengentic.Base.Text.{Text, text_eq, text_eq→eq}
use lengentic.Base.Assoc.{lookup, assign, lookup-assign, text_Eq}
use lengentic.MergeRules.{
  MergeEvent, MergeEntityStatus, MergeTerminalStatus, EntityMergeState, CompletionFieldOrigin,
  Fields, MergeEventKind, start, completion, stored, resolve_terminal_status, later_of,
  should_replace, should_replace_earlier, outranks, origin_of, merge_fields,
}
use lengentic.MergeRules.Order.{IsParsed, later}

-- A completion event carries a status (else `mergeEvent` throws), and the instant parses.
abbrev pub HasStatus : MergeEventKind → Option MergeTerminalStatus → Type 0
HasStatus start _ = Unit
HasStatus completion none = ⊥
HasStatus completion (some _) = Unit

abbrev pub StartView : Type 0 → Type 0
StartView V = Option Text × Option Text × Option (Fields V)

abbrev pub CompletionView : Type 0
CompletionView = Option Text × Option Text × Bool

abbrev pub status_kind :
    MergeEventKind → Option MergeTerminalStatus → MergeEntityStatus → MergeEntityStatus
status_kind completion (some incoming) s = stored (resolve_terminal_status s incoming)
status_kind _ _ s = s

-- One key of `completionFields`, with its origin.
abbrev pub KeyView : Type 0 → Type 0
KeyView V = Option V × Option CompletionFieldOrigin

module _ {V : Type 0} where
  abbrev pub IsOk : MergeEvent V → Type 0
  IsOk e = HasStatus e.kind e.status × IsParsed e.occurred_at

  abbrev pub start_view : EntityMergeState V → StartView V
  start_view s = (s.start_event_id, s.started_at, s.start_fields)

  abbrev pub start_kind : MergeEventKind → StartView V → MergeEvent V → StartView V
  start_kind completion v e = v
  start_kind start v e =
      if should_replace_earlier v.0 v.1 (origin_of e)
      then (some e.event_id, some e.occurred_at, some e.fields)
      else v

  abbrev pub start_step : StartView V → MergeEvent V → StartView V
  start_step v e = start_kind e.kind v e

  abbrev pub completion_view : EntityMergeState V → CompletionView
  completion_view s = (s.completion_event_id, s.completed_at, is_none s.completion_fields)

  abbrev pub completion_kind : MergeEventKind → CompletionView → MergeEvent V → CompletionView
  completion_kind start v e = v
  completion_kind completion v e =
      if should_replace v.0 v.1 (origin_of e)
      then (some e.event_id, some e.occurred_at, false)
      else (v.0, v.1, false)

  abbrev pub completion_step : CompletionView → MergeEvent V → CompletionView
  completion_step v e = completion_kind e.kind v e

  abbrev pub status_step : MergeEntityStatus → MergeEvent V → MergeEntityStatus
  status_step s e = status_kind e.kind e.status s

  abbrev pub clock_step : Option ℕ → MergeEvent V → Option ℕ
  clock_step t e = some (later_of t e.received_at)

  abbrev pub bags_at : Text → Fields V × Fields CompletionFieldOrigin → KeyView V
  bags_at k (fields, origins) = (lookup k fields, lookup k origins)

  abbrev pub key_view : Text → EntityMergeState V → KeyView V
  key_view k s = bags_at k (or_else s.completion_fields [], s.completion_field_origins)

  abbrev pub key_write : CompletionFieldOrigin → Option V → KeyView V → KeyView V
  key_write incoming none v = v
  key_write incoming (some x) v = if outranks incoming v.1 then (some x, some incoming) else v

  abbrev pub key_kind : MergeEventKind → Text → KeyView V → MergeEvent V → KeyView V
  key_kind start k v e = v
  key_kind completion k v e = key_write (origin_of e) (lookup k e.fields) v

  abbrev pub key_step : Text → KeyView V → MergeEvent V → KeyView V
  key_step k v e = key_kind e.kind k v e

module _ {V : Type 0} (k : Text) (incoming : CompletionFieldOrigin) where
  one_entry :
      (j : Text) (x : V) (fields : Fields V) (origins : Fields CompletionFieldOrigin)
      → bags_at k (
          if outranks incoming (lookup j origins)
          then (assign j x fields, assign j incoming origins)
          else (fields, origins))
        ≡ (if text_eq j k
            then key_write incoming (some x) (bags_at k (fields, origins))
            else bags_at k (fields, origins))
  one_entry j x fields origins =
      ground (arith, text_eq→eq j k, lookup-assign j k x fields, lookup-assign j k incoming origins)

  write_twice :
      (x : V) (o : Option V) (v : KeyView V)
      → later incoming incoming ≡ false
      → key_write incoming o (key_write incoming (some x) v) ≡ key_write incoming (some x) v
  unfolding outranks
  write_twice x none v h = refl
  write_twice x (some y) v h = ground arith

  first_entry :
      (j : Text) (x : V) (o : Option V) (v : KeyView V)
      → later incoming incoming ≡ false
      → key_write incoming o (if text_eq j k then key_write incoming (some x) v else v)
        ≡ key_write incoming (if text_eq j k then some x else o) v
  first_entry j x o v h = elim (Bool-cases (text_eq j k)) [
    | inl same ↦ rw same (write_twice x o v h)
    | inr other ↦ rw other
  ]

  -- The loop writes each key as if it were alone; of a repeated key the first entry counts.
  pub merge_fields-key :
      (entries : Fields V) (bags : Fields V × Fields CompletionFieldOrigin)
      → later incoming incoming ≡ false
      → bags_at k (merge_fields incoming entries bags)
        ≡ key_write incoming (lookup k entries) (bags_at k bags)
  unfolding merge_fields lookup
  merge_fields-key [] bags h = refl
  merge_fields-key ((j, x) ∷ entries) bags h =
      merge_fields-key entries _ h
      ∙ ap (key_write incoming (lookup k entries)) (one_entry j x bags.0 bags.1)
      ∙ first_entry j x (lookup k entries) (bags_at k bags) h
