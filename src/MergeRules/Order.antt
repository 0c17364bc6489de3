-- ===== src/MergeRules/Order.antt =====
-- The order of completion events (`compareCompletionOrder`) on events whose instants parse.
use lengentic.Base.{ℕ, ◌≡◌, Bool, true, false, ◌&&◌, ◌||◌, some, arith, ltb, ◌==◌}
use lengentic.Base.Text.{Text, text_lt, text_lt_self, text_lt_trans, text_lt_total}
use lengentic.Base.Date.{date_parse}
use lengentic.MergeRules.{
  CompletionFieldOrigin, is_positive, compare_occurred_at, compare_completion_order,
  should_replace_earlier,
}

-- The instant is one that `Date.parse` reads.
abbrev pub IsParsed : Text → Type 0
IsParsed time = (ms : ℕ) × (date_parse time ≡ some ms)

abbrev pub later : CompletionFieldOrigin → CompletionFieldOrigin → Bool
later a b = is_positive (compare_completion_order a b)

later-eq :
    (a b : CompletionFieldOrigin) (ta tb : ℕ)
    → date_parse a.occurred_at ≡ some ta
    → date_parse b.occurred_at ≡ some tb
    → later a b ≡ (ltb tb ta || ((ta == tb) && text_lt b.event_id a.event_id))
unfolding compare_completion_order
later-eq a b ta tb p q =
    rw (p, q, compare_completion_order, compare_occurred_at)
      (ground (arith, text_lt_trans a.event_id b.event_id a.event_id, text_lt_self a.event_id))

pub earlier-eq :
    (a b : CompletionFieldOrigin)
    → IsParsed a.occurred_at
    → IsParsed b.occurred_at
    → should_replace_earlier (some b.event_id) (some b.occurred_at) a ≡ later b a
unfolding should_replace_earlier
earlier-eq a b (ta, p) (tb, q) =
    rw (later-eq b a tb ta q p, p, q, should_replace_earlier, compare_occurred_at) (ground arith)

module _ (a b : CompletionFieldOrigin) (pa : IsParsed a.occurred_at)
    (pb : IsParsed b.occurred_at) where
  pub later_asym : later a b ≡ true → later b a ≡ false
  later_asym h = ground (
    arith,
    later-eq a b pa.0 pb.0 pa.1 pb.1,
    later-eq b a pb.0 pa.0 pb.1 pa.1,
    text_lt_trans a.event_id b.event_id a.event_id,
    text_lt_self a.event_id,
  )

  pub later_total : later a b ≡ false → later b a ≡ false → a.event_id ≡ b.event_id
  later_total h k = ground (
    arith,
    later-eq a b pa.0 pb.0 pa.1 pb.1,
    later-eq b a pb.0 pa.0 pb.1 pa.1,
    text_lt_total a.event_id b.event_id,
  )

  pub later_trans :
      (c : CompletionFieldOrigin)
      → IsParsed c.occurred_at
      → later a b ≡ true
      → later b c ≡ true
      → later a c ≡ true
  later_trans c pc h k = ground (
    arith,
    later-eq a b pa.0 pb.0 pa.1 pb.1,
    later-eq b c pb.0 pc.0 pb.1 pc.1,
    later-eq a c pa.0 pc.0 pa.1 pc.1,
    text_lt_trans c.event_id b.event_id a.event_id,
  )

  -- What is not later than the lesser of two is not later than the greater.
  pub later-not_later :
      (c : CompletionFieldOrigin)
      → IsParsed c.occurred_at
      → later b a ≡ false
      → later c b ≡ false
      → later c a ≡ false
  later-not_later c pc h k = ground (
    arith,
    later-eq b a pb.0 pa.0 pb.1 pa.1,
    later-eq c b pc.0 pb.0 pc.1 pb.1,
    later-eq c a pc.0 pa.0 pc.1 pa.1,
    text_lt_trans a.event_id c.event_id b.event_id,
    text_lt_total a.event_id c.event_id,
    text_lt_total a.event_id b.event_id,
    text_lt_total b.event_id c.event_id,
    text_lt_trans a.event_id b.event_id c.event_id,
  )

pub later_self : (a : CompletionFieldOrigin) → IsParsed a.occurred_at → later a a ≡ false
later_self a (t, p) = ground (arith, later-eq a a t t p p, text_lt_self a.event_id)
