-- ===== src/Lanes/Order/Completeness.antt =====
-- scripts/lanes.ts, `dependencyOrder`: that the order loses no unit, within its rounds.
use lengentic.Base.{
  ℕ, zero, suc, ◌≤◌, ◌<◌, ◌≡◌, ◌≢◌, refl, sym, subst, ap, ◌∙◌, inl, inr, Bool, false, not, List, [],
  ◌∷◌, ◌++◌, arith, any, filter, length, length-append, Bool-cases, All, All-map, if_both,
  any-append,
}
use mathlib.Core.Bool.{false≢true}
use mathlib.Core.List.{Permᴰ, append_assoc, append-nil}
use mathlib.Core.List.Permᴰ
use lengentic.Base.Text.{Text, text_eq, text_eq→eq, text_eq_self}
use lengentic.Base.Assoc.{assign, text_Eq}
use lengentic.Base.Buckets.{IsFresh, HasDistinctKeys, assign-HasDistinctKeys}
use lengentic.Base.Folds.{HasDistinct, length-perm}
use lengentic.Base.Arrays.{includes, every, is_nil, sort_texts, sort_texts-perm}
use lengentic.Lanes.Units.{LaneUnit}
use lengentic.Lanes.Order.{
  Pending, ids_of, pending_onto, pending_of, keys, free_ids, delete_all, order_rounds,
  dependency_order,
}

pub any-perm {ℓ} : {A : Type ℓ} (p : A → Bool) {xs ys : List A} → Permᴰ xs ys → any p xs ≡ any p ys
any-perm p Permᴰ.nil = refl
any-perm p (Permᴰ.cons e d) = ground (arith, ap p e, any-perm p d)
any-perm p (Permᴰ.swap e₁ e₂) = ground (arith, ap p e₁, ap p e₂)
any-perm p (Permᴰ.trans d₁ d₂) = any-perm p d₁ ∙ any-perm p d₂

text_eq_sym : (a b : Text) → text_eq a b ≡ text_eq b a
unfolding text_eq
text_eq_sym [] [] = refl
text_eq_sym [] (d ∷ b) = refl
text_eq_sym (c ∷ a) [] = refl
text_eq_sym (c ∷ a) (d ∷ b) = ground (arith, text_eq_sym a b)

pub All-both {ℓ κ μ ν} :
    {A : Type ℓ} (P : A → Type κ) (Q : A → Type μ) (R : A → Type ν)
    → ((a : A) → P a → Q a → R a)
    → (xs : List A) → All P xs
    → All Q xs
    → All R xs
All-both P Q R f [] h k = tt
All-both P Q R f (x ∷ xs) (p, h) (q, k) = (f x p q, All-both P Q R f xs h k)

module _ (q : Text × List Text → Bool) where
  -- The entries that pass, then the others.
  partition-perm :
      (m : Pending) → Permᴰ (keys (filter q m) ++ keys (filter (λ e. not (q e)) m)) (keys m)
  partition-perm [] = Permᴰ.nil
  partition-perm (e ∷ m) = elim (Bool-cases (q e)) [
    | inl h ↦ rw h (Permᴰ.cons refl (partition-perm m))
    | inr h ↦ rw h (
        Permᴰ.trans (Permᴰ.middle e.0 (keys (filter q m)) (keys (filter (λ d. not (q d)) m)))
          (Permᴰ.cons refl (partition-perm m)))
  ]

  filter-fresh : (k : Text) (m : Pending) → IsFresh k m → includes k (keys (filter q m)) ≡ false
  filter-fresh k [] f = refl
  filter-fresh k (e ∷ m) (p, f) = elim (Bool-cases (q e)) [
    | inl h ↦ rw (h, text_eq_sym k e.0, p) (filter-fresh k m f)
    | inr h ↦ rw h (filter-fresh k m f)
  ]

  -- With different keys, the keys that pass are those of the entries that pass.
  keys-filter :
      (m : Pending) → HasDistinctKeys m → All (λ e. includes e.0 (keys (filter q m)) ≡ q e) m
  keys-filter [] d = tt
  keys-filter (e ∷ m) (f, d) = elim (Bool-cases (q e)) [
    | inl h ↦ (
      rw (h, text_eq_self e.0) refl,
      All-both (λ c. includes c.0 (keys (filter q m)) ≡ q c) (λ c. text_eq c.0 e.0 ≡ false)
          (λ c. includes c.0 (keys (filter q (e ∷ m))) ≡ q c) (λ c k p. rw (h, p, k) refl) m
          (keys-filter m d) f,
    )
    | inr h ↦ (
      rw h (filter-fresh e.0 m f),
      All-map (λ c. includes c.0 (keys (filter q m)) ≡ q c)
          (λ c. includes c.0 (keys (filter q (e ∷ m))) ≡ q c) (λ c k. rw (h, k) refl) m
          (keys-filter m d),
    )
  ]

filter-cong {ℓ} :
    {A : Type ℓ} (p q : A → Bool) (xs : List A)
    → All (λ x. p x ≡ q x) xs
    → filter p xs ≡ filter q xs
filter-cong p q [] h = refl
filter-cong p q (x ∷ xs) (e, h) = rw (e, filter-cong p q xs h)

filter-IsFresh :
    (k : Text) (q : Text × List Text → Bool) (m : Pending) → IsFresh k m → IsFresh k (filter q m)
filter-IsFresh k q [] f = tt
filter-IsFresh k q (e ∷ m) (p, f) =
    if_both (IsFresh k) (q e) (e ∷ filter q m) (filter q m) (p, filter-IsFresh k q m f)
      (filter-IsFresh k q m f)

filter-HasDistinctKeys :
    (q : Text × List Text → Bool) (m : Pending) → HasDistinctKeys m → HasDistinctKeys (filter q m)
filter-HasDistinctKeys q [] d = tt
filter-HasDistinctKeys q (e ∷ m) (f, d) =
    if_both HasDistinctKeys (q e) (e ∷ filter q m) (filter q m)
      (filter-IsFresh e.0 q m f, filter-HasDistinctKeys q m d) (filter-HasDistinctKeys q m d)

-- What a round deletes is what it orders.
delete_all-eq-filter :
    (out : List Text) (pending : Pending)
    → HasDistinctKeys pending
    → delete_all (sort_texts (free_ids pending out)) pending
      ≡ filter (λ e. not (every (λ d. includes d out) e.1)) pending
unfolding free_ids delete_all
delete_all-eq-filter out pending d = filter-cong _ _ pending (
    All-map (λ e. includes e.0 (free_ids pending out) ≡ every (λ d. includes d out) e.1)
      (λ e.
        not (includes e.0 (sort_texts (free_ids pending out)))
        ≡ not (every (λ d. includes d out) e.1))
      (λ e h. ap not (any-perm (text_eq e.0) (sort_texts-perm (free_ids pending out)) ∙ h)) pending
      (keys-filter (λ e. every (λ d. includes d out) e.1) pending d))

-- One round splits the entries into those it orders and those that wait.
pub round-perm :
    (out : List Text) (pending : Pending)
    → HasDistinctKeys pending
    → Permᴰ
        (sort_texts (free_ids pending out)
          ++ keys (delete_all (sort_texts (free_ids pending out)) pending))
        (keys pending)
unfolding free_ids
round-perm out pending d = rw (delete_all-eq-filter out pending d) (
    Permᴰ.trans (Permᴰ.append_right _ (sort_texts-perm (free_ids pending out)))
      (partition-perm (λ e. every (λ c. includes c out) e.1) pending))

length-map : (m : Pending) → length (keys m) ≡ length m
length-map [] = refl
length-map (e ∷ m) = omega (arith, length-map m)

inhabited {ℓ} : {A : Type ℓ} (xs : List A) → is_nil xs ≡ false → 0 < length xs
inhabited [] h = cc
inhabited (x ∷ xs) h = ground arith

-- A round that orders something leaves less.
round-lt :
    (out : List Text) (pending : Pending)
    → HasDistinctKeys pending
    → is_nil (sort_texts (free_ids pending out)) ≡ false
    → length (delete_all (sort_texts (free_ids pending out)) pending) < length pending
round-lt out pending d h = omega (
  arith,
  length-perm (round-perm out pending d),
  length-append (sort_texts (free_ids pending out))
      (keys (delete_all (sort_texts (free_ids pending out)) pending)),
  length-map pending,
  length-map (delete_all (sort_texts (free_ids pending out)) pending),
  inhabited (sort_texts (free_ids pending out)) h,
)

pub delete_all-HasDistinctKeys :
    (ids : List Text) (m : Pending) → HasDistinctKeys m → HasDistinctKeys (delete_all ids m)
unfolding delete_all
delete_all-HasDistinctKeys ids m d = filter-HasDistinctKeys (λ e. not (includes e.0 ids)) m d

order_rounds-perm :
    (n : ℕ) (pending : Pending) (out : List Text)
    → HasDistinctKeys pending
    → length pending ≤ n
    → Permᴰ (order_rounds n pending out) (out ++ keys pending)
unfolding order_rounds
order_rounds-perm zero [] out d b = subst (Permᴰ out) (sym (append-nil out)) (Permᴰ.refl out)
order_rounds-perm zero (e ∷ pending) out d b = absurd (ground arith)
order_rounds-perm (suc n) [] out d b = subst (Permᴰ out) (sym (append-nil out)) (Permᴰ.refl out)
order_rounds-perm (suc n) (e ∷ pending) out d b =
    let free = sort_texts (free_ids (e ∷ pending) out) in
    elim (Bool-cases (is_nil free)) [
      | inl h ↦ rw h (Permᴰ.append_left out (sort_texts-perm (keys (e ∷ pending))))
      | inr h ↦ rw h (
          Permᴰ.trans
            (order_rounds-perm n (delete_all free (e ∷ pending)) (out ++ free)
              (delete_all-HasDistinctKeys free (e ∷ pending) d)
              (omega (arith, round-lt out (e ∷ pending) d h)))
            (subst (λ l. Permᴰ l (out ++ keys (e ∷ pending)))
              (sym (append_assoc out free (keys (delete_all free (e ∷ pending)))))
              (Permᴰ.append_left out (round-perm out (e ∷ pending) d))))
    ]

keys-assign_fresh :
    (k : Text) (deps : List Text) (m : Pending)
    → includes k (keys m) ≡ false
    → keys (assign k deps m) ≡ keys m ++ k ∷ []
unfolding assign
keys-assign_fresh k deps [] h = refl
keys-assign_fresh k deps (e ∷ m) h = elim (Bool-cases (text_eq e.0 k)) [
  | inl q ↦ absurd (false≢true (sym h ∙ rw (text_eq_sym k e.0, q) refl))
  | inr q ↦ rw (q, keys-assign_fresh k deps m (rw (text_eq_sym k e.0, q) at h)) refl
]

add-fresh :
    (x y : Text) (xs : List Text)
    → includes x xs ≡ false
    → y ≢ x
    → includes x (xs ++ y ∷ []) ≡ false
add-fresh x y xs h n = elim (Bool-cases (text_eq x y)) [
  | inl q ↦ absurd (n (sym (text_eq→eq x y q)))
  | inr q ↦ any-append (text_eq x) xs (y ∷ []) ∙ rw (h, q) refl
]

nothing_included :
    (units : List LaneUnit) → All (λ (u : LaneUnit). includes u.task_id [] ≡ false) units
nothing_included [] = tt
nothing_included (u ∷ units) = (refl, nothing_included units)

pending_onto-keys :
    (ids : List Text) (units : List LaneUnit) (m : Pending)
    → All (λ (u : LaneUnit). includes u.task_id (keys m) ≡ false) units
    → HasDistinct (λ (u : LaneUnit). u.task_id) units
    → keys (pending_onto ids units m) ≡ keys m ++ ids_of units
unfolding pending_onto
pending_onto-keys ids [] m h d = sym (append-nil _)
pending_onto-keys ids (u ∷ units) m (p, h) (f, d) =
    pending_onto-keys ids units _
      (All-both (λ (v : LaneUnit). includes v.task_id (keys m) ≡ false)
        (λ (v : LaneUnit). u.task_id ≢ v.task_id)
        (λ (v : LaneUnit). includes v.task_id (keys (assign u.task_id _ m)) ≡ false)
        (λ v k e.
          ap (includes v.task_id) (keys-assign_fresh u.task_id _ m p)
          ∙ add-fresh v.task_id u.task_id (keys m) k e)
        units h f)
      d
    ∙ ap (λ l. l ++ ids_of units) (keys-assign_fresh u.task_id _ m p)
    ∙ append_assoc (keys m) (u.task_id ∷ []) (ids_of units)

pub pending_onto-HasDistinctKeys :
    (ids : List Text) (units : List LaneUnit) (m : Pending)
    → HasDistinctKeys m
    → HasDistinctKeys (pending_onto ids units m)
unfolding pending_onto
pending_onto-HasDistinctKeys ids [] m d = d
pending_onto-HasDistinctKeys ids (u ∷ units) m d =
    pending_onto-HasDistinctKeys ids units _ (assign-HasDistinctKeys u.task_id _ m d)

pub pending_of-keys :
    (units : List LaneUnit)
    → HasDistinct (λ (u : LaneUnit). u.task_id) units
    → keys (pending_of units) ≡ ids_of units
unfolding pending_of
pending_of-keys units d = pending_onto-keys (ids_of units) units [] (nothing_included units) d

pub dependency_order-perm_keys :
    (units : List LaneUnit) → Permᴰ (dependency_order units) (keys (pending_of units))
unfolding dependency_order pending_of
dependency_order-perm_keys units =
    order_rounds-perm _ (pending_of units) []
      (pending_onto-HasDistinctKeys (ids_of units) units [] tt) (omega arith)

-- The order has each unit's id once, whatever the dependencies are.
pub dependency_order-perm :
    (units : List LaneUnit)
    → HasDistinct (λ (u : LaneUnit). u.task_id) units
    → Permᴰ (dependency_order units) (ids_of units)
dependency_order-perm units d =
    subst (Permᴰ (dependency_order units)) (pending_of-keys units d)
      (dependency_order-perm_keys units)
