-- ===== src/Telemetry/WireSanitize/Unicode.antt =====
-- What a text without NUL and lone surrogates is.
use lengentic.Base.{
  ℕ, ◌≡◌, refl, ap, sym, ◌∙◌, ◌↔◌, true, false, List, [], ◌∷◌, ◌++◌, arith, All, any, any-append,
  ◌==◌, Bool-cases, inl, inr,
}
use lengentic.Base.Text.{Text}
use lengentic.Telemetry.Json.{
  Json, null, boolean, number, string, array, object, Items, no_items, item, Members, no_members,
  member,
}
use lengentic.Telemetry.WireSanitize.{
  is_high, is_low, has_nul_or_lone_surrogate, contains_unsafe_unicode, some_unsafe_item,
  some_unsafe_member,
}

-- A character that Postgres can store, as its UTF-16 units.
pub data Scalar : Type 0 where
  one_unit : ℕ → Scalar
  pair : ℕ → ℕ → Scalar

abbrev pub IsScalar : Scalar → Type 0
IsScalar (one_unit c) = ((c == 0) ≡ false) × (is_high c ≡ false) × (is_low c ≡ false)
IsScalar (pair c d) = (is_high c ≡ true) × (is_low d ≡ true)

abbrev pub encode : List Scalar → Text
encode [] = []
encode (one_unit c ∷ cs) = c ∷ encode cs
encode (pair c d ∷ cs) = c ∷ d ∷ encode cs

abbrev pub IsEncoded : Text → Type 0
IsEncoded t = (cs : List Scalar) × All IsScalar cs × (t ≡ encode cs)

encode-safe : (cs : List Scalar) → All IsScalar cs → has_nul_or_lone_surrogate (encode cs) ≡ false
unfolding has_nul_or_lone_surrogate
encode-safe [] h = refl
encode-safe (one_unit c ∷ []) (h, hs) = ground arith
encode-safe (one_unit c ∷ one_unit d ∷ cs) (h, hs) =
    ground (arith, encode-safe (one_unit d ∷ cs) hs)
encode-safe (one_unit c ∷ pair d e ∷ cs) (h, hs) = ground (arith, encode-safe (pair d e ∷ cs) hs)
encode-safe (pair c d ∷ cs) (h, hs) = ground (arith, encode-safe cs hs)

safe-IsEncoded : (t : Text) → has_nul_or_lone_surrogate t ≡ false → IsEncoded t
unfolding has_nul_or_lone_surrogate
safe-IsEncoded [] h = ([], tt, refl)
safe-IsEncoded (c ∷ []) h = (one_unit c ∷ [], (ground arith, tt), refl)
safe-IsEncoded (c ∷ d ∷ rest) h = elim (Bool-cases (is_high c)) [
  | inl high ↦
      let (cs, ok, e) = safe-IsEncoded rest (ground arith) in
      (pair c d ∷ cs, ((high, ground arith), ok), ap (λ t. c ∷ d ∷ t) e)
  | inr plain ↦
      let (cs, ok, e) = safe-IsEncoded (d ∷ rest) (ground arith) in
      (one_unit c ∷ cs, (ground arith, ok), ap (λ t. c ∷ t) e)
]

has-IsEncoded : (t : Text) → (has_nul_or_lone_surrogate t ≡ false) ↔ IsEncoded t
has-IsEncoded t =
    (safe-IsEncoded t, λ (cs, ok, e). ap has_nul_or_lone_surrogate e ∙ encode-safe cs ok)

-- The keys and the strings of a value, at any depth.
unfoldable mutual
  pub texts : Json → List Text
  texts (string s) = s ∷ []
  texts (array vs) = item_texts vs
  texts (object ms) = member_texts ms
  texts null = []
  texts (boolean _) = []
  texts (number _) = []

  pub item_texts : Items → List Text
  item_texts no_items = []
  item_texts (item v vs) = texts v ++ item_texts vs

  pub member_texts : Members → List Text
  member_texts no_members = []
  member_texts (member k v ms) = k ∷ (texts v ++ member_texts ms)

mutual
  unfolding contains_unsafe_unicode texts

  unsafe-texts : (v : Json) → contains_unsafe_unicode v ≡ any has_nul_or_lone_surrogate (texts v)
  unsafe-texts (string s) = ground arith
  unsafe-texts (array vs) = unsafe-item_texts vs
  unsafe-texts (object ms) = unsafe-member_texts ms
  unsafe-texts null = refl
  unsafe-texts (boolean _) = refl
  unsafe-texts (number _) = refl

  unsafe-item_texts :
      (vs : Items) → some_unsafe_item vs ≡ any has_nul_or_lone_surrogate (item_texts vs)
  unsafe-item_texts no_items = refl
  unsafe-item_texts (item v vs) = ground (
    arith,
    unsafe-texts v,
    unsafe-item_texts vs,
    any-append has_nul_or_lone_surrogate (texts v) (item_texts vs),
  )

  unsafe-member_texts :
      (ms : Members) → some_unsafe_member ms ≡ any has_nul_or_lone_surrogate (member_texts ms)
  unsafe-member_texts no_members = refl
  unsafe-member_texts (member k v ms) = ground (
    arith,
    unsafe-texts v,
    unsafe-member_texts ms,
    any-append has_nul_or_lone_surrogate (texts v) (member_texts ms),
  )

any-All : (ts : List Text) → (any has_nul_or_lone_surrogate ts ≡ false) ↔ All IsEncoded ts
any-All [] = (λ e. tt, λ h. refl)
any-All (t ∷ ts) =
    let here = has-IsEncoded t in
    let later = any-All ts in
    (
      λ e. (here.0 (ground arith), later.0 (ground arith)),
      λ (h, hs). ground (arith, here.1 h, later.1 hs),
    )

-- A value passes the screen exactly when each of its keys and strings is the UTF-16 encoding of
-- characters other than NUL.
pub contains_unsafe_unicode-IsEncoded :
    (v : Json) → (contains_unsafe_unicode v ≡ false) ↔ All IsEncoded (texts v)
contains_unsafe_unicode-IsEncoded v =
    let (to, from) = any-All (texts v) in
    (λ e. to (sym (unsafe-texts v) ∙ e), λ h. unsafe-texts v ∙ from h)
