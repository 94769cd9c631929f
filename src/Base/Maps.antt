-- ===== src/Base/Maps.antt =====
-- `map[string]V` as an association list: a key stands in it at most once.
use Prim.Native.String.{String}
use mathlib.Core.Path.{◌≡◌, refl}
use mathlib.Core.Bool.{Bool, false}
use mathlib.Core.Option.{Option, none, some}
use mathlib.Core.List.{List, [], ◌∷◌}
use native.Mathlib.Omega.{arith}
use text.Mathlib.Text.{◌==◌ as str_eq}
use text.Mathlib.TextEquality.{eq_iff}
use omj_agent.Base.Booleans.{if◌then◌else◌}

abbrev pub is_empty_str : String → Bool
is_empty_str s = str_eq s ""

module _ {ℓ} {V : Type ℓ} where
  abbrev pub lookup : String → List (String × V) → Option V
  lookup k [] = none
  lookup k ((j, v) ∷ m) = let rest = lookup k m in if str_eq j k then some v else rest

  -- `m[k] = f(m[k])`, for a key that is there.
  abbrev pub modify : String → (V → V) → List (String × V) → List (String × V)
  modify k f [] = []
  modify k f ((j, v) ∷ m) =
      let rest = modify k f m in if str_eq j k then (j, f v) ∷ m else (j, v) ∷ rest

  -- `delete(m, k)`
  abbrev pub delete : String → List (String × V) → List (String × V)
  delete k [] = []
  delete k ((j, v) ∷ m) = let rest = delete k m in if str_eq j k then m else (j, v) ∷ rest

  pub lookup-modify_self :
      (k : String) (f : V → V) (m : List (String × V)) (v : V)
      → lookup k m ≡ some v
      → lookup k (modify k f m) ≡ some (f v)
  lookup-modify_self k f [] v h = cc
  lookup-modify_self k f ((j, w) ∷ m) v h = ground (arith, lookup-modify_self k f m v)

  pub lookup-modify_ne :
      (k i : String) (f : V → V) (m : List (String × V))
      → str_eq k i ≡ false
      → lookup i (modify k f m) ≡ lookup i m
  lookup-modify_ne k i f [] h = refl
  lookup-modify_ne k i f ((j, w) ∷ m) h =
      ground (arith, eq_iff j k, eq_iff j i, eq_iff k i, lookup-modify_ne k i f m h)

  -- The entry at `i`, after the one at `k` is modified.
  pub lookup-modify :
      (k i : String) (f : V → V) (m : List (String × V)) (v : V)
      → lookup i m ≡ some v
      → lookup i (modify k f m) ≡ some (if str_eq k i then f v else v)
  lookup-modify k i f [] v h = cc
  lookup-modify k i f ((j, w) ∷ m) v h =
      ground (arith, eq_iff j k, eq_iff j i, eq_iff k i, lookup-modify k i f m v)

  -- A key is there at most once.
  abbrev pub Absent : String → List (String × V) → Type 0
  Absent k [] = Unit
  Absent k ((j, v) ∷ m) = (str_eq j k ≡ false) × Absent k m

  abbrev pub HasDistinctKeys : List (String × V) → Type 0
  HasDistinctKeys [] = Unit
  HasDistinctKeys ((j, v) ∷ m) = Absent j m × HasDistinctKeys m

  pub Absent-modify :
      (k i : String) (f : V → V) (m : List (String × V)) → Absent i m → Absent i (modify k f m)
  Absent-modify k i f [] h = tt
  Absent-modify k i f ((j, w) ∷ m) h = ground (arith, Absent-modify k i f m h.1)

  pub HasDistinctKeys-modify :
      (k : String) (f : V → V) (m : List (String × V))
      → HasDistinctKeys m
      → HasDistinctKeys (modify k f m)
  HasDistinctKeys-modify k f [] h = tt
  HasDistinctKeys-modify k f ((j, w) ∷ m) h =
      ground (arith, HasDistinctKeys-modify k f m h.1, Absent-modify k j f m h.0)

  pub Absent-delete : (k i : String) (m : List (String × V)) → Absent i m → Absent i (delete k m)
  Absent-delete k i [] h = tt
  Absent-delete k i ((j, w) ∷ m) h = ground (arith, Absent-delete k i m h.1)

  pub HasDistinctKeys-delete :
      (k : String) (m : List (String × V)) → HasDistinctKeys m → HasDistinctKeys (delete k m)
  HasDistinctKeys-delete k [] h = tt
  HasDistinctKeys-delete k ((j, w) ∷ m) h =
      ground (arith, HasDistinctKeys-delete k m h.1, Absent-delete k j m h.0)

  pub lookup-Absent : (k : String) (m : List (String × V)) → Absent k m → lookup k m ≡ none
  lookup-Absent k [] h = refl
  lookup-Absent k ((j, w) ∷ m) h = ground (arith, lookup-Absent k m h.1)

  pub Absent-lookup : (k : String) (m : List (String × V)) → lookup k m ≡ none → Absent k m
  Absent-lookup k [] h = tt
  Absent-lookup k ((j, w) ∷ m) h = ground (arith, Absent-lookup k m)
