-- ===== src/Text/Split.antt =====
-- `strings.Cut`, `Split`, `Join`, `Fields`, `Lines` and the searches.
use omj_agent.Base.{
  ℕ, zero, suc, ◌-◌, Bool, Option, none, some, List, [], ◌∷◌, ◌++◌, length, ◌==◌, if◌then◌else◌,
}
use omj_agent.Text.{Text, is_nil, is_space, cut_prefix, has_prefix}

-- What stands before the first character of a set, and the text from there on: `IndexAny`.
abbrev pub break_at : (ℕ → Bool) → Text → Text × Text
break_at p [] = ([], [])
break_at p (c ∷ s) = let rest = break_at p s in if p c then ([], c ∷ s) else (c ∷ rest.0, rest.1)

-- `strings.Cut` at one character.
abbrev pub cut : ℕ → Text → Option (Text × Text)
cut sep [] = none
cut sep (c ∷ s) =
    let rest = cut sep s in
    if c == sep
    then some ([], s)
    else elim rest [ none ↦ none | some (before, after) ↦ some (c ∷ before, after) ]

-- `strings.Cut` at a text that is not empty.
abbrev pub cut_text : Text → Text → Option (Text × Text)
cut_text sep [] = none
cut_text sep (c ∷ s) =
    let rest = cut_text sep s in
    elim (cut_prefix sep (c ∷ s)) [
      | some after ↦ some ([], after)
      | none ↦ elim rest [ none ↦ none | some (before, after) ↦ some (c ∷ before, after) ]
    ]

-- What stands before the last place of a text that is not empty: `LastIndex`.
abbrev pub cut_last : Text → Text → Option Text
cut_last sep [] = none
cut_last sep (c ∷ s) = elim (cut_last sep s) [
  | some before ↦ some (c ∷ before)
  | none ↦ if has_prefix sep (c ∷ s) then some [] else none
]

-- A character before the first of the pieces.
abbrev pub cons_head : ℕ → List Text → List Text
cons_head c [] = (c ∷ []) ∷ []
cons_head c (t ∷ ts) = (c ∷ t) ∷ ts

-- `strings.Split` at one character.
abbrev pub split : ℕ → Text → List Text
split sep [] = [] ∷ []
split sep (c ∷ s) = let rest = split sep s in if c == sep then [] ∷ rest else cons_head c rest

-- `strings.Split` at a text that is not empty; `skip` counts what is left of a separator.
abbrev pub split_text : Text → ℕ → Text → List Text
split_text sep skip [] = [] ∷ []
split_text sep (suc skip) (c ∷ s) = split_text sep skip s
split_text sep zero (c ∷ s) =
    let ended = split_text sep (length sep - 1) s in
    let longer = split_text sep 0 s in
    if has_prefix sep (c ∷ s) then [] ∷ ended else cons_head c longer

abbrev pub join : Text → List Text → Text
join sep [] = []
join sep (t ∷ []) = t
join sep (t ∷ u ∷ ts) = t ++ (sep ++ join sep (u ∷ ts))

-- The words of a text, `word` being read: `Fields`.
abbrev pub words : Text → Text → List Text
words word [] = if is_nil word then [] else word ∷ []
words word (c ∷ s) =
    let ended = words [] s in
    let longer = words (word ++ c ∷ []) s in
    if is_space c then (if is_nil word then ended else word ∷ ended) else longer

abbrev pub fields : Text → List Text
fields s = words [] s

-- The lines of a text, each with its "\n", `line` being read: `Lines`.
abbrev pub lines_from : Text → Text → List Text
lines_from line [] = if is_nil line then [] else line ∷ []
lines_from line (c ∷ s) =
    let ended = lines_from [] s in
    let longer = lines_from (line ++ c ∷ []) s in
    if c == b'\n' then (line ++ c ∷ []) ∷ ended else longer

abbrev pub lines : Text → List Text
lines s = lines_from [] s
