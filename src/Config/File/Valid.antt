-- ===== src/Config/File/Valid.antt =====
-- What a configuration that passes `Validate` satisfies.
use omj_agent.Base.{
  ℕ, ◌≡◌, ◌↔◌, refl, Bool, true, false, not, ◌&&◌, ◌||◌, Option, none, some, List, [], ◌∷◌,
  if◌then◌else◌, arith, subst, ℤ, pos, ltb_ℤ,
}
use omj_agent.Text.{Text, codes, is_nil, text_eq, contains_text}
use omj_agent.Config.File.{
  Config, ConfigError, bad_log_level, bad_concurrent_runs, bad_timeout, bad_output_bytes, Url,
  log_levels, check_names, validate_server_url, validate,
}

-- No name is empty or stands in the list twice.
abbrev pub are_names : List Text → Bool
are_names [] = true
are_names (n ∷ ns) = not (is_nil n) && not (contains_text ns n) && are_names ns

-- `z` is between two numbers.
abbrev pub is_between : ℕ → ℕ → ℤ → Bool
is_between a b z = not (ltb_ℤ z (pos a)) && not (ltb_ℤ (pos b) z)

abbrev pub is_secure : Config → Url → Bool
is_secure c u =
    not (is_nil u.host)
    && (text_eq u.scheme (codes "https") || (text_eq u.scheme (codes "http") && c.insecure_http))

abbrev pub is_server : (Text → Option Url) → Config → Bool
is_server parse_url c =
    not (is_nil c.server_url)
    && (elim (parse_url c.server_url) [ none ↦ false | some u ↦ is_secure c u ])

abbrev pub is_valid : (Text → Option Url) → Config → Bool
is_valid parse_url c =
    is_server parse_url c
    && contains_text log_levels c.log_level
    && is_between 1 64 c.max_concurrent_runs
    && not (ltb_ℤ c.max_timeout_seconds (pos 1))
    && not (ltb_ℤ c.max_output_bytes (pos 1))
    && are_names c.run_as_allowed

abbrev disjoint : List Text → List Text → Bool
disjoint seen [] = true
disjoint seen (n ∷ ns) = not (contains_text seen n) && disjoint seen ns

text_eq_sym : (s t : Text) → text_eq s t ≡ text_eq t s
text_eq_sym [] [] = refl
text_eq_sym [] (d ∷ t) = refl
text_eq_sym (c ∷ s) [] = refl
text_eq_sym (c ∷ s) (d ∷ t) = ground (arith, text_eq_sym s t)

disjoint-cons :
    (n : Text) (seen ns : List Text)
    → disjoint (n ∷ seen) ns ≡ (not (contains_text ns n) && disjoint seen ns)
disjoint-cons n seen [] = refl
disjoint-cons n seen (m ∷ ns) = ground (arith, disjoint-cons n seen ns, text_eq_sym n m)

check_names_iff :
    (seen ns : List Text)
    → (check_names seen ns ≡ none) ↔ ((are_names ns && disjoint seen ns) ≡ true)
check_names_iff seen [] = ground arith
check_names_iff seen (n ∷ ns) =
    ground (arith, check_names_iff (n ∷ seen) ns, disjoint-cons n seen ns)

disjoint-nil : (ns : List Text) → disjoint [] ns ≡ true
disjoint-nil [] = refl
disjoint-nil (n ∷ ns) = disjoint-nil ns

guard_iff :
    (t : Bool) (e : ConfigError) (o : Option ConfigError) (q : Bool)
    → (o ≡ none) ↔ (q ≡ true)
    → ((if t then some e else o) ≡ none) ↔ ((not t && q) ≡ true)
guard_iff true e o q h = ground arith
guard_iff false e o q h = h

first_iff :
    (o r : Option ConfigError) (p q : Bool)
    → (o ≡ none) ↔ (p ≡ true)
    → (r ≡ none) ↔ (q ≡ true)
    → ((elim o [ some e ↦ some e | none ↦ r ]) ≡ none) ↔ ((p && q) ≡ true)
first_iff none r p q h k = ground (arith, h, k)
first_iff (some e) r p q h k = ground (arith, h)

regroup :
    (s l x y t b n : Bool)
    → (s && (not (not l) && (not (x || y) && (not t && (not b && n)))))
      ≡ (s && l && (not x && not y) && not t && not b && n)
regroup s l x y t b n = ground arith

names_iff : (ns : List Text) → (check_names [] ns ≡ none) ↔ (are_names ns ≡ true)
names_iff ns = ground (arith, check_names_iff [] ns, disjoint-nil ns)

module _ (parse_url : Text → Option Url) (c : Config) where
  server_iff : (validate_server_url parse_url c ≡ none) ↔ (is_server parse_url c ≡ true)
  unfolding validate_server_url
  server_iff = ground arith

  -- `Validate` finds no error exactly if the server's URL has a host and uses https, or http where the
  -- configuration allows it; the log level is one of the four; the three numbers are in their ranges; and
  -- no user is empty or listed twice.
  pub validate_iff : (validate parse_url c ≡ none) ↔ (is_valid parse_url c ≡ true)
  unfolding validate
  validate_iff =
      let runs = c.max_concurrent_runs in
      subst (λ q. (validate parse_url c ≡ none) ↔ (q ≡ true))
        (regroup (is_server parse_url c) (contains_text log_levels c.log_level) (ltb_ℤ runs (pos 1))
          (ltb_ℤ (pos 64) runs) (ltb_ℤ c.max_timeout_seconds (pos 1))
          (ltb_ℤ c.max_output_bytes (pos 1)) (are_names c.run_as_allowed))
        (first_iff (validate_server_url parse_url c) _ _ _ server_iff (
          guard_iff (not (contains_text log_levels c.log_level)) bad_log_level _ _ (
            guard_iff (ltb_ℤ runs (pos 1) || ltb_ℤ (pos 64) runs) bad_concurrent_runs _ _ (
              guard_iff (ltb_ℤ c.max_timeout_seconds (pos 1)) bad_timeout _ _ (
                guard_iff (ltb_ℤ c.max_output_bytes (pos 1)) bad_output_bytes _ _
                  (names_iff c.run_as_allowed))))))
