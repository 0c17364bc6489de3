-- ===== src/Flow/Segments/Dropped.antt =====
-- scripts/flow.ts, `segmentsOf`: the nodes of a named segment that `executionOrder` leaves out.
use lengentic.Base.{
  ℕ, ◌≡◌, refl, sym, subst, ap, ◌∙◌, Bool, true, false, ◌&&◌, ◌⊎◌, inl, inr, Option, none, some,
  List, [], ◌∷◌, ◌++◌, if◌then◌else◌, is_none, All, Bool-cases, Option-cases, arith, ◌==◌,
}
use mathlib.Core.Bool.{false≢true}
use mathlib.Core.Option.{some-injective, none-ne-some}
use lengentic.Base.Text.{Text, text_eq, text_eq→eq, text_eq_self}
use lengentic.Base.Assoc.{lookup, assign, lookup-assign, text_Eq}
use lengentic.Base.Arrays.{includes, sort_texts-perm}
use lengentic.Base.Buckets.{All-lookup}
use lengentic.Lanes.Order.Completeness.{any-perm}
use lengentic.Oracle.Graph.{Resolved}
use lengentic.Oracle.Resolve.{ById}
use lengentic.Flow.Transition.{Segment}
use lengentic.Flow.Segments.{
  Claimed, Named, and_then, claim_ids, claim_all, unclaimed_ids, nodes_in, head_or_empty,
  phase_number, named_from, phase_from, named_segment, phase_segment, segment_of, segments_in,
  checked, find_unplaced, segments_of,
}

-- What a chain of fallible steps gives, each step gave.
chained {ℓ} :
    {A B : Type ℓ} (o : Text ⊎ A) (k : A → Text ⊎ B) (b : B)
    → and_then o k ≡ inr b
    → (a : A) × (o ≡ inr a) × (k a ≡ inr b)
chained (inl e) k b h = cc
chained (inr a) k b h = (a, refl, h)

-- What a guard lets through.
guarded {ℓ} :
    {A : Type ℓ} (c : Bool) (e : Text) (o : Text ⊎ A) (a : A)
    → (if c then inl e else o) ≡ inr a
    → (c ≡ false) × (o ≡ inr a)
guarded true e o a h = cc
guarded false e o a h = (refl, h)

kept {ℓ} :
    {A : Type ℓ} (c : Bool) (e : Text) (o : Text ⊎ A) (a : A)
    → (if c then o else inl e) ≡ inr a
    → (c ≡ true) × (o ≡ inr a)
kept true e o a h = (refl, h)
kept false e o a h = cc

inr_injective {ℓ} : {A : Type ℓ} (a b : A) → Path (Text ⊎ A) (inr a) (inr b) → a ≡ b
inr_injective a b h = cc

free_ne_owned : (o : Option Text) (t : Text) → is_none o ≡ true → o ≡ some t → ⊥
free_ne_owned none t h k = none-ne-some t k
free_ne_owned (some u) t h k = false≢true h

apart_first : (a b : Text) (bs : List Text) → includes a (b ∷ bs) ≡ false → text_eq a b ≡ false
apart_first a b bs h = ground (arith, h)

apart_rest : (a b : Text) (bs : List Text) → includes a (b ∷ bs) ≡ false → includes a bs ≡ false
apart_rest a b bs h = ground (arith, h)

All-middle {ℓ κ} :
    {A : Type ℓ} (P : A → Type κ) (front : List A) (a : A) (back : List A)
    → All P (front ++ a ∷ back)
    → P a
All-middle P [] a back (p, h) = p
All-middle P (b ∷ front) a back (p, h) = All-middle P front a back h

passed_check :
    (o : Option Text) (found segments : List Segment)
    → checked o found ≡ inr segments
    → found ≡ segments
unfolding checked
passed_check none found segments h = inr_injective found segments h
passed_check (some id) found segments h = cc

module _ (by_id : ById) (x : Text) where
  claim_step :
      (seg id : Text) (members : List Text) (m c : Claimed)
      → claim_ids seg (id ∷ members) by_id m ≡ inr c
      → (is_none (lookup id m) ≡ true) × (claim_ids seg members by_id (assign id seg m) ≡ inr c)
  unfolding claim_ids
  claim_step seg id members m c h =
      kept (is_none (lookup id m)) _ _ c (guarded (is_none (lookup id by_id)) _ _ c h).1

  owner_after :
      (id seg t : Text) (m : Claimed)
      → is_none (lookup id m) ≡ true
      → lookup x m ≡ some t
      → lookup x (assign id seg m) ≡ some t
  owner_after id seg t m free k = elim (Bool-cases (text_eq id x)) [
    | inl e ↦
        absurd (free_ne_owned (lookup id m) t free (ap (λ y. lookup y m) (text_eq→eq id x e) ∙ k))
    | inr e ↦ lookup-assign id x seg m ∙ rw e k
  ]

  claim_ids-keeps :
      (seg t : Text) (members : List Text) (m c : Claimed)
      → claim_ids seg members by_id m ≡ inr c
      → lookup x m ≡ some t
      → lookup x c ≡ some t
  unfolding claim_ids
  claim_ids-keeps seg t [] m c h k = subst (λ l. lookup x l ≡ some t) (inr_injective m c h) k
  claim_ids-keeps seg t (id ∷ members) m c h k =
      claim_ids-keeps seg t members (assign id seg m) c (claim_step seg id members m c h).1
        (owner_after id seg t m (claim_step seg id members m c h).0 k)

  claim_ids-owns :
      (seg : Text) (members : List Text) (m c : Claimed)
      → claim_ids seg members by_id m ≡ inr c
      → includes x members ≡ true
      → lookup x c ≡ some seg
  unfolding claim_ids
  claim_ids-owns seg [] m c h i = absurd (false≢true i)
  claim_ids-owns seg (id ∷ members) m c h i = elim (Bool-cases (text_eq x id)) [
    | inl e ↦
        claim_ids-keeps seg seg members (assign id seg m) c (claim_step seg id members m c h).1
          (lookup-assign id x seg m ∙ rw (sym (text_eq→eq x id e), text_eq_self x) refl)
    | inr e ↦
        claim_ids-owns seg members (assign id seg m) c (claim_step seg id members m c h).1
          (rw e at i)
  ]

  claim_all-keeps :
      (named : Named) (t : Text) (m c : Claimed)
      → claim_all named by_id m ≡ inr c
      → lookup x m ≡ some t
      → lookup x c ≡ some t
  unfolding claim_all
  claim_all-keeps [] t m c h k = subst (λ l. lookup x l ≡ some t) (inr_injective m c h) k
  claim_all-keeps ((seg, members) ∷ named) t m c h k =
      let first =
        chained (claim_ids seg members by_id m) (λ (d : Claimed). claim_all named by_id d) c h in
      claim_all-keeps named t first.0 c first.2 (claim_ids-keeps seg t members m first.0 first.1 k)

  -- The named segment that lists an id owns it in the end.
  claim_all-owns :
      (named : Named) (m c : Claimed)
      → claim_all named by_id m ≡ inr c
      → All (λ (e : Text × List Text). includes x e.1 ≡ true → lookup x c ≡ some e.0) named
  unfolding claim_all
  claim_all-owns [] m c h = tt
  claim_all-owns ((seg, members) ∷ named) m c h =
      let first =
        chained (claim_ids seg members by_id m) (λ (d : Claimed). claim_all named by_id d) c h in
      (
        λ i.
            claim_all-keeps named seg first.0 c first.2
              (claim_ids-owns seg members m first.0 first.1 i),
        claim_all-owns named first.0 c first.2,
      )

  unclaimed_ids-free :
      (phase : ℕ) (seg : Text) (c : Claimed) (nodes : List Resolved)
      → lookup x c ≡ some seg
      → includes x (unclaimed_ids phase c nodes) ≡ false
  unfolding unclaimed_ids
  unclaimed_ids-free phase seg c [] k = refl
  unclaimed_ids-free phase seg c (n ∷ nodes) k =
      elim (Bool-cases ((n.node.phase == phase) && is_none (lookup n.node.id c))) [
        | inr e ↦ rw e (unclaimed_ids-free phase seg c nodes k)
        | inl e ↦ elim (Bool-cases (text_eq x n.node.id)) [
          | inr q ↦ rw (e, q) (unclaimed_ids-free phase seg c nodes k)
          | inl q ↦ absurd (
              free_ne_owned (lookup x c) seg
                (ap (λ y. is_none (lookup y c)) (text_eq→eq x n.node.id q) ∙ ground (arith, e)) k)
        ]
      ]

  named_segment-node_ids :
      (seg : Text) (members : List Text) (s : Segment)
      → named_segment seg members by_id ≡ inr s
      → s.node_ids ≡ members
  unfolding named_segment
  named_segment-node_ids seg members s h = from_head (lookup (head_or_empty members) by_id) h
    where
      from_head : (o : Option Resolved) → named_from seg members o ≡ inr s → s.node_ids ≡ members
      from_head none k = cc
      from_head (some n) k = sym (ap (λ (t : Segment). t.node_ids) (inr_injective _ s k))

  phase_segment-lacks :
      (seg owner : Text) (c : Claimed) (s : Segment)
      → lookup x c ≡ some owner
      → phase_segment seg c by_id ≡ inr s
      → includes x s.node_ids ≡ false
  unfolding phase_segment
  phase_segment-lacks seg owner c s k h = from_number (phase_number seg) h
    where
      from_number :
          (o : Option ℕ) → phase_from seg c by_id o ≡ inr s → includes x s.node_ids ≡ false
      from_number none l = cc
      from_number (some phase) l =
          subst (λ (t : Segment). includes x t.node_ids ≡ false)
            (inr_injective _ s (guarded _ _ _ s l).1)
            (any-perm (text_eq x) (sort_texts-perm (unclaimed_ids phase c (nodes_in by_id)))
              ∙ unclaimed_ids-free phase owner c (nodes_in by_id) k)

  -- A segment of another name does not have the id.
  segment_of-lacks :
      (named : Named) (c : Claimed) (owner seg : Text) (s : Segment)
      → All (λ (e : Text × List Text). includes x e.1 ≡ true → lookup x c ≡ some e.0) named
      → lookup x c ≡ some owner
      → text_eq owner seg ≡ false
      → segment_of seg named c by_id ≡ inr s
      → includes x s.node_ids ≡ false
  unfolding segment_of
  segment_of-lacks named c owner seg s owns k other h = elim (Option-cases (lookup seg named)) [
    | inl e ↦ phase_segment-lacks seg owner c s k (rw (e, segment_of) at h)
    | inr (members, e) ↦ elim (Bool-cases (includes x members)) [
      | inr q ↦ ap (includes x) (named_segment-node_ids seg members s (rw (e, segment_of) at h)) ∙ q
      | inl q ↦ absurd (
          false≢true (
            sym other
            ∙ ap (λ t. text_eq t seg)
                (some-injective owner seg (
                  sym k
                  ∙ All-lookup (λ t a. includes x a ≡ true → lookup x c ≡ some t) seg members named
                      owns e q))
            ∙ text_eq_self seg))
    ]
  ]

  segments_in-lacks :
      (named : Named) (c : Claimed) (owner : Text) (order : List Text) (segments : List Segment)
      → All (λ (e : Text × List Text). includes x e.1 ≡ true → lookup x c ≡ some e.0) named
      → lookup x c ≡ some owner
      → includes owner order ≡ false
      → segments_in order named c by_id ≡ inr segments
      → All (λ (s : Segment). includes x s.node_ids ≡ false) segments
  unfolding segments_in
  segments_in-lacks named c owner [] segments owns k other h =
      subst (All (λ (s : Segment). includes x s.node_ids ≡ false)) (inr_injective [] segments h) tt
  segments_in-lacks named c owner (seg ∷ order) segments owns k other h =
      let first =
        chained (segment_of seg named c by_id)
          (λ (s : Segment).
            and_then (segments_in order named c by_id) (λ (rest : List Segment). inr (s ∷ rest)))
          segments h in
      let later =
        chained (segments_in order named c by_id) (λ (rest : List Segment). inr (first.0 ∷ rest))
          segments first.2 in
      subst (All (λ (s : Segment). includes x s.node_ids ≡ false))
        (inr_injective (first.0 ∷ later.0) segments later.2)
        (
          segment_of-lacks named c owner seg first.0 owns k (apart_first owner seg order other)
              first.1,
          segments_in-lacks named c owner order later.0 owns k (apart_rest owner seg order other)
              later.1,
        )

-- When segmentsOf gives segments, a node that a named segment lists is in none of them if
-- `executionOrder` does not list that named segment.
pub segments_of-drops :
    (order : List Text) (named front back : Named) (by_id : ById) (owner : Text)
    (members : List Text) (id : Text) (segments : List Segment)
    → named ≡ front ++ (owner, members) ∷ back
    → includes id members ≡ true
    → includes owner order ≡ false
    → segments_of order named by_id ≡ inr segments
    → All (λ (s : Segment). includes id s.node_ids ≡ false) segments
unfolding segments_of
segments_of-drops [] named front back by_id owner members id segments e i other h = cc
segments_of-drops (seg ∷ order) named front back by_id owner members id segments e i other h =
    let first =
      chained (claim_all named by_id [])
        (λ (claimed : Claimed).
          and_then (segments_in (seg ∷ order) named claimed by_id) (λ (found : List Segment).
            checked (find_unplaced named claimed found (nodes_in by_id)) found))
        segments h in
    let later =
      chained (segments_in (seg ∷ order) named first.0 by_id)
        (λ (found : List Segment).
          checked (find_unplaced named first.0 found (nodes_in by_id)) found)
        segments first.2 in
    let owns = claim_all-owns by_id id named [] first.0 first.1 in
    subst (All (λ (s : Segment). includes id s.node_ids ≡ false))
      (passed_check (find_unplaced named first.0 later.0 (nodes_in by_id)) later.0 segments later.2)
      (segments_in-lacks by_id id named first.0 owner (seg ∷ order) later.0 owns
        (All-middle
          (λ (p : Text × List Text). includes id p.1 ≡ true → lookup id first.0 ≡ some p.0) front
          (owner, members) back
          (subst
            (All (λ (p : Text × List Text). includes id p.1 ≡ true → lookup id first.0 ≡ some p.0))
            e owns)
          i)
        other later.1)
