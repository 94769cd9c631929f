-- ===== src/Text/Trim.antt =====
-- `strings.TrimLeftFunc`, `strings.TrimRightFunc` and what is made of them.
use omj_agent.Base.{ℕ, Bool, ◌&&◌, [], ◌∷◌, if◌then◌else◌}
use omj_agent.Text.{Text, is_nil, is_space}

abbrev pub trim_left : (ℕ → Bool) → Text → Text
trim_left p [] = []
trim_left p (c ∷ s) = let rest = trim_left p s in if p c then rest else c ∷ s

abbrev pub trim_right : (ℕ → Bool) → Text → Text
trim_right p [] = []
trim_right p (c ∷ s) = let rest = trim_right p s in if is_nil rest && p c then [] else c ∷ rest

-- `strings.TrimSpace`
unfoldable pub trim_space : Text → Text
trim_space s = trim_left is_space (trim_right is_space s)
