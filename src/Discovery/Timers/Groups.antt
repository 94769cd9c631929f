-- ===== src/Discovery/Timers/Groups.antt =====
-- The groups of a property.
use omj_agent.Base.{
  ℕ, zero, suc, ◌<◌, ◌≡◌, refl, ap, inl, inr, none, some, List, [], ◌∷◌, ◌++◌, length, ◌==◌,
  if◌then◌else◌, arith, Bool-cases, Option-cases, append-nil, append_assoc,
}
use omj_agent.Text.{Text}
use omj_agent.Text.Trim.{trim_space}
use omj_agent.Text.Split.{cut}
use omj_agent.Discovery.Timers.{groups_from, property_groups}

-- One pass over a text: outside a group, or `opened` with what was read of it.
pub data Place : Type 0 where
  outside : Place
  within : Text → Place

abbrev pub scan_groups : Place → Text → List Text
scan_groups place [] = []
scan_groups outside (c ∷ s) =
    let opened = scan_groups (within []) s in
    let next = scan_groups outside s in if c == b'{' then opened else next
scan_groups (within word) (c ∷ s) =
    let closed = scan_groups outside s in
    let longer = scan_groups (within (word ++ c ∷ [])) s in
    if c == b'}' then trim_space word ∷ closed else longer

scan_within :
    (s word : Text)
    → scan_groups (within word) s ≡ (elim (cut b'}' s) [
      | none ↦ []
      | some (group, more) ↦ trim_space (word ++ group) ∷ scan_groups outside more
    ])
scan_within [] word = refl
scan_within (c ∷ s) word = elim (Bool-cases (c == b'}')) [
  | inl is ↦ rw is (ground (arith, append-nil word))
  | inr isnt ↦
      let ih = scan_within s (word ++ c ∷ []) in
      elim (Option-cases (cut b'}' s)) [
        | inl e ↦ ground (arith, isnt, e, ih)
        | inr ((group, more), e) ↦ ground (arith, isnt, e, ih, append_assoc word (c ∷ []) group)
      ]
]

scan_outside :
    (s : Text)
    → scan_groups outside s
      ≡ (elim (cut b'{' s) [ none ↦ [] | some (skipped, opened) ↦ scan_groups (within []) opened ])
scan_outside [] = refl
scan_outside (c ∷ s) = elim (Bool-cases (c == b'{')) [
  | inl is ↦ ground (arith, is)
  | inr isnt ↦ elim (Option-cases (cut b'{' s)) [
    | inl e ↦ ground (arith, isnt, e, scan_outside s)
    | inr ((skipped, opened), e) ↦ ground (arith, isnt, e, scan_outside s)
  ]
]

-- What is left after a cut is shorter.
cut-shorter :
    (sep : ℕ) (s before after : Text) → cut sep s ≡ some (before, after) → length after < length s
cut-shorter sep [] before after h = cc
cut-shorter sep (c ∷ s) before after h = elim (Bool-cases (c == sep)) [
  | inl is ↦ ground (arith, h, is)
  | inr isnt ↦ elim (Option-cases (cut sep s)) [
    | inl e ↦ absurd (ground (arith, h, isnt, e))
    | inr ((b, a), e) ↦ ground (arith, h, isnt, e, cut-shorter sep s b a e)
  ]
]

groups_from-scan :
    (fuel : ℕ) (s : Text) → length s < fuel → groups_from fuel s ≡ scan_groups outside s
groups_from-scan zero s h = absurd (omega arith)
groups_from-scan (suc fuel) s h = elim (Option-cases (cut b'{' s)) [
  | inl e ↦ rw (groups_from, scan_outside s, e) refl
  | inr ((skipped, opened), e) ↦ elim (Option-cases (cut b'}' opened)) [
    | inl f ↦ rw (groups_from, scan_outside s, e, scan_within opened [], f) refl
    | inr ((group, more), f) ↦
        rw (groups_from, scan_outside s, e, scan_within opened [], f)
          (ap (◌∷◌ (trim_space group)) (
            groups_from-scan fuel more (
              omega (
                arith,
                cut-shorter b'{' s skipped opened e,
                cut-shorter b'}' opened group more f,
              ))))
  ]
]

-- The loop over a property's groups ends, and finds what one pass from the left finds: each text between
-- an opening brace outside a group and the closing brace next to it, trimmed.
pub property_groups-scan : (value : Text) → property_groups value ≡ scan_groups outside value
unfolding property_groups
property_groups-scan value = groups_from-scan (suc (length value)) value (omega arith)
