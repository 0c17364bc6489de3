-- ===== src/MergeRules/Commute.antt =====
-- On each view two events with different ids may change places.
use lengentic.Base.{ℕ, ◌≡◌, refl, ◌≢◌, true, Option, none, some, arith, Bool-cases, inl, inr}
use lengentic.Base.Text.{Text}
use lengentic.Base.Assoc.{lookup, text_Eq}
use lengentic.MergeRules.{
  MergeEvent, MergeEntityStatus, MergeTerminalStatus, CompletionFieldOrigin, MergeEventKind, start,
  completion, resolve_terminal_status, later_of, should_replace, should_replace_earlier, outranks,
  origin_of,
}
use lengentic.MergeRules.Order.{IsParsed, later, later_asym, later_total, later_trans, earlier-eq}
use lengentic.MergeRules.Views.{
  IsOk, StartView, start_kind, CompletionView, completion_kind, status_kind, KeyView, key_write,
  key_kind,
}

-- A stored id stands beside an instant that parses, or neither is there.
abbrev pub IsDated : Option Text → Option Text → Type 0
IsDated none none = Unit
IsDated (some id) (some time) = IsParsed time
IsDated _ _ = ⊥

-- Nothing stored gives way to anything.
earlier_none : (o : CompletionFieldOrigin) → should_replace_earlier none none o ≡ true
unfolding should_replace_earlier
earlier_none o = refl

replace_none : (o : CompletionFieldOrigin) → should_replace none none o ≡ true
unfolding should_replace
replace_none o = refl

replace-eq :
    (o : CompletionFieldOrigin) (c : CompletionFieldOrigin)
    → should_replace (some c.event_id) (some c.occurred_at) o ≡ later o c
unfolding should_replace
replace-eq o c = refl

-- The earlier start survives, whichever is met first.
module _ {V : Type 0} where
  abbrev pub StartInv : StartView V → Type 0
  StartInv v = IsDated v.0 v.1

  pub start_keep :
      (kind : MergeEventKind) (v : StartView V) (e : MergeEvent V)
      → StartInv v
      → IsParsed e.occurred_at
      → StartInv (start_kind kind v e)
  start_keep completion v e i p = i
  start_keep start v e i p = elim (Bool-cases (should_replace_earlier v.0 v.1 (origin_of e))) [
    | inl wins ↦ rw wins p
    | inr loses ↦ rw loses i
  ]

  start_commute :
      (v : StartView V) (a b : MergeEvent V)
      → StartInv v
      → IsParsed a.occurred_at
      → IsParsed b.occurred_at
      → a.event_id ≢ b.event_id
      → start_kind start (start_kind start v a) b ≡ start_kind start (start_kind start v b) a
  unfolding origin_of
  start_commute (none, none, f) a b i pa pb ne = ground (
    arith,
    earlier_none (origin_of a),
    earlier_none (origin_of b),
    earlier-eq (origin_of b) (origin_of a) pb pa,
    earlier-eq (origin_of a) (origin_of b) pa pb,
    later_asym (origin_of b) (origin_of a) pb pa,
    later_total (origin_of b) (origin_of a) pb pa,
  )
  start_commute (none, some time, f) a b i pa pb ne = absurd i
  start_commute (some id, none, f) a b i pa pb ne = absurd i
  start_commute (some id, some time, f) a b p pa pb ne = ground (
    arith,
    earlier-eq (origin_of a) cur pa p,
    earlier-eq (origin_of b) cur pb p,
    earlier-eq (origin_of b) (origin_of a) pb pa,
    earlier-eq (origin_of a) (origin_of b) pa pb,
    later_asym (origin_of b) (origin_of a) pb pa,
    later_total (origin_of b) (origin_of a) pb pa,
    later_trans cur (origin_of b) p pb (origin_of a) pa,
    later_trans cur (origin_of a) p pa (origin_of b) pb,
  )
    where
      cur : CompletionFieldOrigin
      cur = record { occurred_at = time; event_id = id }

-- The later completion survives.
abbrev pub CompletionInv : CompletionView → Type 0
CompletionInv v = IsDated v.0 v.1

module _ {V : Type 0} where
  pub completion_keep :
      (kind : MergeEventKind) (v : CompletionView) (e : MergeEvent V)
      → CompletionInv v
      → IsParsed e.occurred_at
      → CompletionInv (completion_kind kind v e)
  completion_keep start v e i p = i
  completion_keep completion v e i p = elim (Bool-cases (should_replace v.0 v.1 (origin_of e))) [
    | inl wins ↦ rw wins p
    | inr loses ↦ rw loses i
  ]

  completion_commute :
      (v : CompletionView) (a b : MergeEvent V)
      → CompletionInv v
      → IsParsed a.occurred_at
      → IsParsed b.occurred_at
      → a.event_id ≢ b.event_id
      → completion_kind completion (completion_kind completion v a) b
        ≡ completion_kind completion (completion_kind completion v b) a
  unfolding origin_of
  completion_commute (none, none, f) a b i pa pb ne = ground (
    arith,
    replace_none (origin_of a),
    replace_none (origin_of b),
    replace-eq (origin_of b) (origin_of a),
    replace-eq (origin_of a) (origin_of b),
    later_asym (origin_of b) (origin_of a) pb pa,
    later_total (origin_of b) (origin_of a) pb pa,
  )
  completion_commute (none, some time, f) a b i pa pb ne = absurd i
  completion_commute (some id, none, f) a b i pa pb ne = absurd i
  completion_commute (some id, some time, f) a b p pa pb ne = ground (
    arith,
    replace-eq (origin_of a) cur,
    replace-eq (origin_of b) cur,
    replace-eq (origin_of b) (origin_of a),
    replace-eq (origin_of a) (origin_of b),
    later_asym (origin_of b) (origin_of a) pb pa,
    later_total (origin_of b) (origin_of a) pb pa,
    later_trans (origin_of b) (origin_of a) pb pa cur p,
    later_trans (origin_of a) (origin_of b) pa pb cur p,
  )
    where
      cur : CompletionFieldOrigin
      cur = record { occurred_at = time; event_id = id }

-- So with each key of the completion fields.
module _ {V : Type 0} where
  abbrev pub KeyInv : KeyView V → Type 0
  KeyInv (x, none) = Unit
  KeyInv (x, some o) = IsParsed o.occurred_at

  write_keep :
      (o : CompletionFieldOrigin) (x : Option V) (v : KeyView V)
      → KeyInv v
      → IsParsed o.occurred_at
      → KeyInv (key_write o x v)
  write_keep o none v i p = i
  write_keep o (some x) v i p = elim (Bool-cases (outranks o v.1)) [
    | inl wins ↦ rw wins p
    | inr loses ↦ rw loses i
  ]

  pub key_keep :
      (k : Text) (kind : MergeEventKind) (v : KeyView V) (e : MergeEvent V)
      → KeyInv v
      → IsParsed e.occurred_at
      → KeyInv (key_kind kind k v e)
  unfolding origin_of
  key_keep k start v e i p = i
  key_keep k completion v e i p = write_keep (origin_of e) (lookup k e.fields) v i p

  write_commute :
      (v : KeyView V) (a b : CompletionFieldOrigin) (x y : Option V)
      → KeyInv v
      → IsParsed a.occurred_at
      → IsParsed b.occurred_at
      → a.event_id ≢ b.event_id
      → key_write b y (key_write a x v) ≡ key_write a x (key_write b y v)
  unfolding outranks
  write_commute v a b none y i pa pb ne = refl
  write_commute v a b (some x) none i pa pb ne = refl
  write_commute (z, none) a b (some x) (some y) i pa pb ne =
      ground (arith, later_asym b a pb pa, later_total b a pb pa)
  write_commute (z, some o) a b (some x) (some y) i pa pb ne = ground (
    arith,
    later_asym b a pb pa,
    later_total b a pb pa,
    later_trans b a pb pa o i,
    later_trans a b pa pb o i,
  )

-- The five views, for events of either kind.
module _ {V : Type 0} (a b : MergeEvent V) (oa : IsOk a) (ob : IsOk b)
    (ne : a.event_id ≢ b.event_id) where
  pub kinds_start :
      (ka kb : MergeEventKind) (v : StartView V)
      → StartInv v
      → start_kind kb (start_kind ka v a) b ≡ start_kind ka (start_kind kb v b) a
  kinds_start start start v i = start_commute v a b i oa.1 ob.1 ne
  kinds_start start completion v i = refl
  kinds_start completion start v i = refl
  kinds_start completion completion v i = refl

  pub kinds_completion :
      (ka kb : MergeEventKind) (v : CompletionView)
      → CompletionInv v
      → completion_kind kb (completion_kind ka v a) b
        ≡ completion_kind ka (completion_kind kb v b) a
  kinds_completion start start v i = refl
  kinds_completion start completion v i = refl
  kinds_completion completion start v i = refl
  kinds_completion completion completion v i = completion_commute v a b i oa.1 ob.1 ne

  pub kinds_key :
      (k : Text) (ka kb : MergeEventKind) (v : KeyView V)
      → KeyInv v
      → key_kind kb k (key_kind ka k v a) b ≡ key_kind ka k (key_kind kb k v b) a
  unfolding origin_of
  kinds_key k start start v i = refl
  kinds_key k start completion v i = refl
  kinds_key k completion start v i = refl
  kinds_key k completion completion v i =
      write_commute v (origin_of a) (origin_of b) (lookup k a.fields) (lookup k b.fields) i oa.1
        ob.1 ne

pub status_commute :
    (ka kb : MergeEventKind) (sa sb : Option MergeTerminalStatus) (s : MergeEntityStatus)
    → status_kind kb sb (status_kind ka sa s) ≡ status_kind ka sa (status_kind kb sb s)
unfolding resolve_terminal_status
status_commute ka kb sa sb s = ground arith

pub clock_commute :
    (t : Option ℕ) (m n : ℕ) → later_of (some (later_of t m)) n ≡ later_of (some (later_of t n)) m
clock_commute none m n = omega arith
clock_commute (some t) m n = omega arith
