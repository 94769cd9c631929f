-- ===== src/Config/File/Names.antt =====
-- The list of users, printed and read.
use omj_agent.Base.{ℕ, ◌≡◌, refl, ap, false, List, [], ◌∷◌, ◌++◌, map, ◌==◌, arith, All}
use omj_agent.Text.{Text, codes, is_nil, is_space, has_any}
use omj_agent.Text.Trim.{trim_right, trim_space}
use omj_agent.Text.Split.{split, cons_head, join}
use omj_agent.Config.File.Lines.{space-yes, is_nil-eq}

-- The name of a user that the list can hold.
pub record IsName (n : Text) : Type 0 where
  pub trimmed : trim_space n ≡ n
  pub plain : has_any (λ c. c == b',') n ≡ false

trim_space-space : (t : Text) → trim_space (b' ' ∷ t) ≡ trim_space t
unfolding trim_space
trim_space-space t = ground (arith, space-yes, is_nil-eq (trim_right is_space t))

split-end : (n : Text) → has_any (λ c. c == b',') n ≡ false → split b',' n ≡ n ∷ []
split-end [] h = refl
split-end (c ∷ n) h = ground (arith, h, split-end n)

split-next :
    (n t : Text)
    → has_any (λ c. c == b',') n ≡ false
    → split b',' (n ++ b',' ∷ t) ≡ n ∷ split b',' t
split-next [] t h = refl
split-next (c ∷ n) t h = ground (arith, h, split-next n t)

map-cons_head :
    (ts : List Text) → is_nil ts ≡ false → map trim_space (cons_head b' ' ts) ≡ map trim_space ts
map-cons_head [] h = cc
map-cons_head (t ∷ ts) h = ground (arith, trim_space-space t)

cons_head-nil : (c : ℕ) (ts : List Text) → is_nil (cons_head c ts) ≡ false
cons_head-nil c [] = refl
cons_head-nil c (t ∷ ts) = refl

split-nil : (sep : ℕ) (t : Text) → is_nil (split sep t) ≡ false
split-nil sep [] = refl
split-nil sep (c ∷ t) = ground (arith, cons_head-nil c (split sep t))

-- A list of names is read back from its print.
pub split-join :
    (n : Text) (ns : List Text)
    → All IsName (n ∷ ns)
    → map trim_space (split b',' (join (codes ", ") (n ∷ ns))) ≡ n ∷ ns
split-join n [] h = rw (split-end n h.0.plain, h.0.trimmed) refl
split-join n (m ∷ ns) h =
    let rest = join (codes ", ") (m ∷ ns) in
    rw
      (
        split-next n (b' ' ∷ rest) h.0.plain,
        h.0.trimmed,
        map-cons_head (split b',' rest) (split-nil b',' rest),
      )
      (ap (◌∷◌ n) (split-join m ns h.1))
