-- ===== src/TelemetrySdk/PayloadSafety/Bounds.antt =====
-- platform/telemetry-sdk/src/payload-safety.ts: the size of what `capField` ships, and the length
-- that `truncateString` keeps.
use lengentic.Base.{
  ℕ, zero, suc, ◌+◌, ◌-◌, ◌/◌, ◌≤◌, ◌<◌, ◌≡◌, ◌⊎◌, inl, inr, refl, subst, Bool, true, false, arith,
  length, ltb, leb, min, Bool-cases, leb→le,
}
use lengentic.Base.Text.{Text}
use lengentic.TelemetrySdk.PayloadSafety.{
  Sanitized, null, boolean, number, string, array, object, no_entries, field, stringify, json_bytes,
  truncation_key, whole_pairs, prefix_of, marked, fits, search, kept_length, truncate_string,
  shrink, hard_preview, CappedField, cap_field,
}

-- A length that passes, and is the greatest allowed or has a successor that does not pass.
abbrev pub IsLargest : (ℕ → Bool) → ℕ → ℕ → Type 0
IsLargest ok high r = (ok r ≡ true) × ((r ≡ high) ⊎ ((r < high) × (ok (suc r) ≡ false)))

IsLargest-below :
    (ok : ℕ → Bool) (mid high r : ℕ)
    → 0 < mid
    → mid ≤ high
    → ok mid ≡ false
    → IsLargest ok (mid - 1) r
    → IsLargest ok high r
IsLargest-below ok mid high r p m e (h, inl q) =
    (h, inr (omega (arith, p, m, q), subst (λ k. ok k ≡ false) (omega (arith, p, q)) e))
IsLargest-below ok mid high r p m e (h, inr (b, q)) = (h, inr (omega (arith, p, m, b), q))

mid_lt : (low high : ℕ) → low < high → low < (low + high + 1) / 2
mid_lt low high l = omega (arith, l)

mid_le : (low high : ℕ) → low < high → (low + high + 1) / 2 ≤ high
mid_le low high l = omega (arith, l)

ltb_cases : (a b : ℕ) → ((ltb a b ≡ true) × (a < b)) ⊎ ((ltb a b ≡ false) × (b ≤ a))
ltb_cases a b = elim (Bool-cases (ltb a b)) [
  | inl e ↦ inl (e, ground arith)
  | inr e ↦ inr (e, ground arith)
]

-- The binary search ends within as many rounds as the range is wide.
search-IsLargest :
    (ok : ℕ → Bool) (n low high : ℕ)
    → high ≤ low + n
    → low ≤ high
    → ok low ≡ true
    → IsLargest ok high (search ok n low high)
unfolding search
search-IsLargest ok zero low high b l h = (h, inl (omega (arith, b, l)))
search-IsLargest ok (suc n) low high b l h = elim (ltb_cases low high) [
  | inr (e, q) ↦ rw e (h, inl (omega (arith, l, q)))
  | inl (e, q) ↦
      let mid = (low + high + 1) / 2 in
      elim (Bool-cases (ok mid)) [
        | inl k ↦
            rw (e, k)
              (search-IsLargest ok n mid high (omega (arith, b, mid_lt low high q))
                (mid_le low high q) k)
        | inr k ↦
            rw (e, k)
              (IsLargest-below ok mid high _ (omega (arith, mid_lt low high q)) (mid_le low high q)
                k
                (search-IsLargest ok n low (mid - 1)
                  (omega (arith, b, mid_lt low high q, mid_le low high q))
                  (omega (arith, mid_lt low high q)) h))
      ]
]

-- The suffix alone takes 16 bytes.
suffix_fits : (t : Text) (budget : ℕ) → 16 ≤ budget → fits t budget 0 ≡ true
unfolding fits prefix_of json_bytes whole_pairs
suffix_fits t budget b = ground arith

-- For a budget of at least 16 bytes, truncateString keeps a prefix that fits with its suffix, and
-- that is the whole text (or as many units as the budget has bytes) or would not fit with one unit
-- more; the search ends within its rounds.
pub kept_length-IsLargest :
    (t : Text) (budget : ℕ)
    → 16 ≤ budget
    → IsLargest (fits t budget) (min (length t) budget) (kept_length t budget)
unfolding kept_length
kept_length-IsLargest t budget b =
    search-IsLargest (fits t budget) (min (length t) budget) 0 (min (length t) budget) (omega arith)
      (omega arith) (suffix_fits t budget b)

truncate_string-le :
    (t : Text) (budget : ℕ) → 16 ≤ budget → json_bytes (string (truncate_string t budget)) ≤ budget
unfolding truncate_string fits
truncate_string-le t budget b =
    leb→le (json_bytes (string (marked t (kept_length t budget)))) budget
      (kept_length-IsLargest t budget b).0

marker_bytes :
    (max_bytes : ℕ)
    → 256 ≤ max_bytes
    → json_bytes (object (field truncation_key (boolean true) no_entries)) ≤ max_bytes
unfolding json_bytes
marker_bytes max_bytes b = omega (arith, b)

hard_preview-le :
    (v : Sanitized) (max_bytes : ℕ)
    → 256 ≤ max_bytes
    → json_bytes (hard_preview v max_bytes) ≤ max_bytes
unfolding hard_preview
hard_preview-le null m b = truncate_string-le (stringify null) m (omega (arith, b))
hard_preview-le (boolean c) m b = truncate_string-le (stringify (boolean c)) m (omega (arith, b))
hard_preview-le (number t) m b = truncate_string-le (stringify (number t)) m (omega (arith, b))
hard_preview-le (string t) m b = truncate_string-le (stringify (string t)) m (omega (arith, b))
hard_preview-le (array vs) m b = truncate_string-le (stringify (array vs)) m (omega (arith, b))
hard_preview-le (object fs) m b = marker_bytes m b

-- What is said of the field that ships.
abbrev pub IsCapped : Sanitized → ℕ → Bool → CappedField → Type 0
IsCapped v max_bytes elided c =
    (c.bytes ≤ max_bytes)
    × (c.bytes ≡ json_bytes c.value)
    × (c.original_bytes ≡ json_bytes v)
    × (((c.value ≡ v) × (c.truncated ≡ elided))
        ⊎ ((max_bytes < json_bytes v) × (c.truncated ≡ true)))

-- For a cap of at least 256 bytes, what ships has at most so many bytes, and its size and that of
-- the value before are reported as they are; a value that is within the cap ships unchanged, and
-- one that is not is marked as truncated.
pub cap_field-IsCapped :
    (v : Sanitized) (max_bytes : ℕ) (elided : Bool)
    → 256 ≤ max_bytes
    → IsCapped v max_bytes elided (cap_field v max_bytes elided)
unfolding cap_field
cap_field-IsCapped v max_bytes elided b = elim (Bool-cases (leb (json_bytes v) max_bytes)) [
  | inl e ↦ rw e (leb→le (json_bytes v) max_bytes e, refl, refl, inl (refl, refl))
  | inr e ↦ elim (ltb_cases max_bytes (json_bytes (shrink v max_bytes))) [
    | inl (k, q) ↦ rw (e, k) (hard_preview-le v max_bytes b, refl, refl, inr (over e, refl))
    | inr (k, q) ↦ rw (e, k) (q, refl, refl, inr (over e, refl))
  ]
]
  where
    over : leb (json_bytes v) max_bytes ≡ false → max_bytes < json_bytes v
    over e = ground (arith, e)
