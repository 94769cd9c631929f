-- ===== src/Discovery/Entries/Budget.antt =====
-- The budget of a discovery.
use omj_agent.Base.{
  ℕ, zero, suc, ◌+◌, ◌-◌, ◌≤◌, ◌≡◌, refl, sym, ◌∙◌, ap, subst, Bool, true, false, ◌||◌, List, [],
  ◌∷◌, ◌++◌, length, length-append, append_assoc, append-nil, delete_func, ltb, leb, if◌then◌else◌,
  arith, Bool-cases, inl, inr,
}
use omj_agent.Discovery.Entries.{Entry, Limits, Collection, new_collection, entry_size, add}

-- Each entry a source has, in order.
abbrev pub add_all : List Entry → Collection → Collection
add_all [] c = c
add_all (e ∷ es) c = add_all es (add e c)

abbrev pub total : List Entry → ℕ
total [] = 0
total (e ∷ es) = entry_size e + total es

-- The longest beginning of a list that has at most `n` entries and `b` bytes.
abbrev pub beginning : ℕ → ℕ → List Entry → List Entry
beginning n b [] = []
beginning zero b (e ∷ es) = []
beginning (suc n) b (e ∷ es) =
    let rest = beginning n (b - entry_size e) es in if leb (entry_size e) b then e ∷ rest else []

-- An entry larger than a whole discovery.
abbrev pub oversized : ℕ → Entry → Bool
oversized b e = ltb b (entry_size e)

add-count :
    (e : Entry) (c : Collection)
    → (add e c).omitted + length (add e c).entries ≡ suc (c.omitted + length c.entries)
unfolding add
add-count e c = ground (arith, length-append c.entries (e ∷ []))

add_all-count :
    (es : List Entry) (c : Collection)
    → (add_all es c).omitted + length (add_all es c).entries
      ≡ length es + (c.omitted + length c.entries)
add_all-count [] c = omega arith
add_all-count (e ∷ es) c = omega (arith, add_all-count es (add e c), add-count e c)

total-append : (es fs : List Entry) → total (es ++ fs) ≡ total es + total fs
total-append [] fs = omega arith
total-append (e ∷ es) fs = omega (arith, total-append es fs)

-- What stays true of a discovery as it grows.
pub record IsWithin (c : Collection) : Type 0 where
  pub counted : c.bytes ≡ total c.entries
  pub bytes_fit : c.bytes ≤ c.limits.max_bytes
  pub entries_fit : length c.entries ≤ c.limits.max_entries

pub add-IsWithin : (e : Entry) (c : Collection) → IsWithin c → IsWithin (add e c)
unfolding add
add-IsWithin e c w = record {
  counted = ground (arith, w.counted, total-append c.entries (e ∷ []));
  bytes_fit = ground (arith, w.bytes_fit);
  entries_fit = ground (arith, w.entries_fit, length-append c.entries (e ∷ []));
}

module _ (e : Entry) (c : Collection) where
  add_large : oversized c.limits.max_bytes e ≡ true → add e c ≡ record c { omitted = suc c.omitted }
  unfolding add
  add_large h = rw h refl

  add_fits :
      oversized c.limits.max_bytes e ≡ false
      → (c.spent
          || leb c.limits.max_entries (length c.entries)
          || ltb c.limits.max_bytes (c.bytes + entry_size e))
        ≡ false
      → add e c ≡ record c { bytes = c.bytes + entry_size e; entries = c.entries ++ e ∷ [] }
  unfolding add
  add_fits h k = rw (h, k) refl

  add_over :
      oversized c.limits.max_bytes e ≡ false
      → (c.spent
          || leb c.limits.max_entries (length c.entries)
          || ltb c.limits.max_bytes (c.bytes + entry_size e))
        ≡ true
      → add e c ≡ record c { spent = true; omitted = suc c.omitted }
  unfolding add
  add_over h k = rw (h, k) refl

add_all-IsWithin : (es : List Entry) (c : Collection) → IsWithin c → IsWithin (add_all es c)
add_all-IsWithin [] c w = w
add_all-IsWithin (e ∷ es) c w = add_all-IsWithin es (add e c) (add-IsWithin e c w)

add-spent :
    (e : Entry) (c : Collection)
    → c.spent ≡ true
    → ((add e c).entries ≡ c.entries) × ((add e c).spent ≡ true)
unfolding add
add-spent e c h = ground (arith, h)

add_all-spent :
    (es : List Entry) (c : Collection) → c.spent ≡ true → (add_all es c).entries ≡ c.entries
add_all-spent [] c h = refl
add_all-spent (e ∷ es) c h = ground (arith, add-spent e c h, add_all-spent es (add e c))

beginning_over :
    (n b : ℕ) (e : Entry) (es : List Entry)
    → (leb n 0 || ltb b (entry_size e)) ≡ true
    → beginning n b (e ∷ es) ≡ []
beginning_over zero b e es h = refl
beginning_over (suc n) b e es h = ground (arith, h)

beginning_fits :
    (n b : ℕ) (e : Entry) (es : List Entry)
    → (leb n 0 || ltb b (entry_size e)) ≡ false
    → beginning n b (e ∷ es) ≡ e ∷ beginning (n - 1) (b - entry_size e) es
beginning_fits zero b e es h = absurd (ground (arith, h))
beginning_fits (suc n) b e es h = ground (arith, h)

beginning_eq : {n m a b : ℕ} (es : List Entry) → n ≡ m → a ≡ b → beginning n a es ≡ beginning m b es
beginning_eq es h k = cc

add_all-entries :
    (es : List Entry) (c : Collection)
    → IsWithin c
    → c.spent ≡ false
    → (add_all es c).entries
      ≡ c.entries
        ++ beginning
            (c.limits.max_entries - length c.entries)
            (c.limits.max_bytes - c.bytes)
            (delete_func (oversized c.limits.max_bytes) es)
add_all-entries [] c w h = sym (append-nil c.entries)
add_all-entries (e ∷ es) c w h = elim (Bool-cases (oversized c.limits.max_bytes e)) [
  | inl large ↦
      rw (large, add_large e c large, add_all)
        (add_all-entries es _
          record { counted = w.counted; bytes_fit = w.bytes_fit; entries_fit = w.entries_fit } h)
  | inr small ↦
      elim (Bool-cases (
        c.spent
        || leb c.limits.max_entries (length c.entries)
        || ltb c.limits.max_bytes (c.bytes + entry_size e))) [
          | inl over ↦
              rw
                (
                  small,
                  add_over e c small over,
                  add_all,
                  beginning_over (c.limits.max_entries - length c.entries)
                      (c.limits.max_bytes - c.bytes) e
                      (delete_func (oversized c.limits.max_bytes) es)
                      (ground (arith, over, h, w.bytes_fit)),
                )
                (add_all-spent es _ refl ∙ sym (append-nil c.entries))
          | inr fits ↦
              let kept : IsWithin (add e c) = add-IsWithin e c w in
              rw
                (
                  small,
                  add_fits e c small fits,
                  add_all,
                  beginning_fits (c.limits.max_entries - length c.entries)
                      (c.limits.max_bytes - c.bytes) e
                      (delete_func (oversized c.limits.max_bytes) es)
                      (ground (arith, fits, w.bytes_fit)),
                )
                (add_all-entries es _ (subst IsWithin (add_fits e c small fits) kept) h
                  ∙ append_assoc c.entries (e ∷ []) _
                  ∙ ap (λ r. c.entries ++ e ∷ r)
                      (beginning_eq _ (omega (arith, length-append c.entries (e ∷ [])))
                        (omega arith)))
        ]
]

pub new-IsWithin : (l : Limits) → IsWithin (new_collection l)
unfolding new_collection
new-IsWithin l = record { counted = refl; bytes_fit = omega arith; entries_fit = omega arith }

-- Adding entries one by one to a fresh discovery keeps the longest beginning, within the budget, of those
-- entries that are no larger than a whole discovery; and counts every other entry as omitted.
pub add_all-beginning :
    (l : Limits) (es : List Entry)
    → let c = add_all es (new_collection l) in
      (c.entries ≡ beginning l.max_entries l.max_bytes (delete_func (oversized l.max_bytes) es))
      × (c.omitted + length c.entries ≡ length es)
      × (c.bytes ≡ total c.entries)
unfolding new_collection
add_all-beginning l es =
    let c = new_collection l in
    (
      ground (arith, add_all-entries es c (new-IsWithin l) refl),
      omega (arith, add_all-count es c),
      (add_all-IsWithin es c (new-IsWithin l)).counted,
    )
