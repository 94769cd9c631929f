-- ===== src/Config/File/RoundTrip.antt =====
-- A configuration, printed and read.
use omj_agent.Base.{
  ℕ, suc, ◌≡◌, refl, ◌∙◌, subst, inl, inr, ◌⊎◌, Bool, true, false, Option, some, List, [], ◌∷◌,
  ◌++◌, if◌then◌else◌, arith, Option-cases, if-intro, append-nil, All, ℤ,
}
use omj_agent.Text.{Text, codes, is_nil, is_space, is_line_end, all_of, has_any, contains_text}
use omj_agent.Text.Trim.{trim_left, trim_right, trim_space}
use omj_agent.Text.Split.{lines, join}
use omj_agent.Text.Decimal.{format}
use omj_agent.Text.Decimal.RoundTrip.{InRange, atoi-format, is_numeric, format-numeric, size-format}
use omj_agent.Config.File.{
  Config, Url, validate, save, load, ParseError, unquote, set, split_list, parse_bool, parse_pair,
  Parsing, setting, parse_lines, parse, format_bool, to_text, default_config,
}
use omj_agent.Config.File.Lines.{IsTrimmed}
use omj_agent.Config.File.Scanned.{IsSettable, IsKey, lines-setting, parse_lines-setting}
use omj_agent.Config.File.Names.{IsName, split-join}

-- Settings one after the other.
abbrev render : List (Text × Text) → Text
render [] = []
render ((k, v) ∷ kvs) = setting k v ++ render kvs

abbrev read_pairs : ℕ → List (Text × Text) → Parsing → ParseError ⊎ Config
read_pairs line [] p = inr p.1
read_pairs line ((k, v) ∷ kvs) p = elim (parse_pair line k v p) [
  | inl err ↦ inl err
  | inr p' ↦ read_pairs (suc line) kvs p'
]

abbrev IsPair : Text × Text → Type 0
IsPair (k, v) = IsKey k × IsSettable v

after_pair :
    (o : ParseError ⊎ Parsing) (f g : Parsing → ParseError ⊎ Config)
    → ((p : Parsing) → f p ≡ g p)
    → (elim o [ inl err ↦ inl err | inr p ↦ f p ]) ≡ (elim o [ inl err ↦ inl err | inr p ↦ g p ])
after_pair (inl err) f g h = refl
after_pair (inr p) f g h = h p

parse_lines-render :
    (line : ℕ) (kvs : List (Text × Text)) (p : Parsing)
    → All IsPair kvs
    → parse_lines line (lines (render kvs)) p ≡ read_pairs line kvs p
parse_lines-render line [] p h = refl
parse_lines-render line ((k, v) ∷ kvs) p h =
    rw
      (
        lines-setting k v h.0.0 h.0.1 (render kvs),
        parse_lines-setting k v h.0.0 h.0.1 line (lines (render kvs)) p,
      )
      (after_pair (parse_pair line k v p) _ _ (λ p'. parse_lines-render (suc line) kvs p' h.1))

-- What `String` can print so that `Parse` reads it.
pub record IsWritable (c : Config) : Type 0 where
  pub server_url : IsSettable c.server_url
  pub machine_id : IsSettable c.machine_id
  pub log_level : IsSettable c.log_level
  pub concurrent_runs : InRange c.max_concurrent_runs
  pub timeout : InRange c.max_timeout_seconds
  pub output_bytes : InRange c.max_output_bytes
  pub names : All IsName c.run_as_allowed
  pub names_line : IsSettable (join (codes ", ") c.run_as_allowed)
  pub names_filled : is_nil (join (codes ", ") c.run_as_allowed) ≡ is_nil c.run_as_allowed

parse_bool-format : (b : Bool) → parse_bool (format_bool b) ≡ some b
parse_bool-format true = refl
parse_bool-format false = refl

format_bool-IsSettable : (b : Bool) → IsSettable (format_bool b)
unfolding unquote is_space
format_bool-IsSettable true = record {
  trimmed = record { left = refl; right = refl };
  one_line = refl;
  unquoted = refl;
  fits = omega arith;
}
format_bool-IsSettable false = record {
  trimmed = record { left = refl; right = refl };
  one_line = refl;
  unquoted = refl;
  fits = omega arith;
}

numeric-space : (c : ℕ) → is_numeric c ≡ true → is_space c ≡ false
unfolding is_space
numeric-space c h = ground (arith, h)

numeric-right : (s : Text) → all_of is_numeric s ≡ true → trim_right is_space s ≡ s
numeric-right [] h = refl
numeric-right (c ∷ s) h = ground (arith, h, numeric-space c, numeric-right s)

numeric-line : (s : Text) → all_of is_numeric s ≡ true → has_any is_line_end s ≡ false
numeric-line [] h = refl
numeric-line (c ∷ s) h = ground (arith, h, numeric-line s)

numeric-left : (s : Text) → all_of is_numeric s ≡ true → trim_left is_space s ≡ s
numeric-left [] h = refl
numeric-left (c ∷ s) h = ground (arith, h, numeric-space c)

numeric-unquote : (s : Text) → all_of is_numeric s ≡ true → unquote s ≡ s
unfolding unquote
numeric-unquote [] h = refl
numeric-unquote (c ∷ s) h = ground (arith, h)

format-IsSettable : (z : ℤ) → InRange z → IsSettable (format z)
format-IsSettable z h =
    let n = format-numeric z in
    record {
      trimmed = record { left = numeric-left (format z) n; right = numeric-right (format z) n };
      one_line = numeric-line (format z) n;
      unquoted = numeric-unquote (format z) n;
      fits = omega (arith, size-format z h);
    }

-- The settings that each configuration has.
abbrev settings : Config → List (Text × Text)
settings c =
    (codes "server_url", c.server_url)
    ∷ (codes "machine_id", c.machine_id)
    ∷ (codes "insecure_http", format_bool c.insecure_http)
    ∷ (codes "log_level", c.log_level)
    ∷ (codes "max_concurrent_runs", format c.max_concurrent_runs)
    ∷ (codes "max_timeout_seconds", format c.max_timeout_seconds)
    ∷ (codes "max_output_bytes", format c.max_output_bytes)
    ∷ (if is_nil c.run_as_allowed
        then []
        else (codes "run_as_allowed", join (codes ", ") c.run_as_allowed) ∷ [])

last-render :
    (t : Bool) (k v : Text)
    → render (if t then [] else (k, v) ∷ []) ≡ (if t then [] else setting k v)
last-render true k v = refl
last-render false k v = append-nil (setting k v)

to_text-render : (c : Config) → to_text c ≡ render (settings c)
unfolding to_text
to_text-render c =
    rw
      (last-render (is_nil c.run_as_allowed) (codes "run_as_allowed")
        (join (codes ", ") c.run_as_allowed))
      refl

settings-IsPair : (c : Config) → IsWritable c → All IsPair (settings c)
unfolding is_space
settings-IsPair c w =
    let names : All IsPair (
        if is_nil c.run_as_allowed
        then []
        else (codes "run_as_allowed", join (codes ", ") c.run_as_allowed) ∷ []) =
      if-intro (All IsPair) (is_nil c.run_as_allowed) (λ t. tt)
        (λ f. (((refl, refl, omega arith), w.names_line), tt)) in
    let bytes = format-IsSettable c.max_output_bytes w.output_bytes in
    let timeout = format-IsSettable c.max_timeout_seconds w.timeout in
    let runs = format-IsSettable c.max_concurrent_runs w.concurrent_runs in
    (
      ((refl, refl, omega arith), w.server_url),
      (
        ((refl, refl, omega arith), w.machine_id),
        (
          ((refl, refl, omega arith), format_bool-IsSettable c.insecure_http),
          (
            ((refl, refl, omega arith), w.log_level),
            (
              ((refl, refl, omega arith), runs),
              (((refl, refl, omega arith), timeout), (((refl, refl, omega arith), bytes), names)),
            ),
          ),
        ),
      ),
    )

split_list-join :
    (n : Text) (ns : List Text)
    → All IsName (n ∷ ns)
    → IsTrimmed (join (codes ", ") (n ∷ ns))
    → is_nil (join (codes ", ") (n ∷ ns)) ≡ false
    → split_list (join (codes ", ") (n ∷ ns)) ≡ n ∷ ns
unfolding split_list trim_space
split_list-join n ns h t f = rw (t.right, t.left, f) (split-join n ns h)

read_names :
    (seen : List Text) (c : Config) (ns : List Text)
    → contains_text seen (codes "run_as_allowed") ≡ false
    → All IsName ns
    → IsTrimmed (join (codes ", ") ns)
    → is_nil (join (codes ", ") ns) ≡ is_nil ns
    → read_pairs 8
        (if is_nil ns then [] else (codes "run_as_allowed", join (codes ", ") ns) ∷ [])
        (seen, record c { run_as_allowed = [] })
      ≡ inr (record c { run_as_allowed = ns })
unfolding parse_pair set
read_names seen c [] k h t f = refl
read_names seen c (n ∷ ns) k h t f = rw (k, split_list-join n ns h t f, read_pairs) refl

read_pairs-settings :
    (c : Config) → IsWritable c → read_pairs 1 (settings c) ([], default_config) ≡ inr c
unfolding parse_pair set
read_pairs-settings c w =
    rw
      (
        parse_bool-format c.insecure_http,
        atoi-format c.max_concurrent_runs w.concurrent_runs,
        atoi-format c.max_timeout_seconds w.timeout,
        atoi-format c.max_output_bytes w.output_bytes,
        read_pairs,
        settings,
      )
      (read_names _ c c.run_as_allowed refl w.names w.names_line.trimmed w.names_filled)

parse-to_text : (c : Config) → IsWritable c → parse (to_text c) ≡ inr c
unfolding parse
parse-to_text c w = rw (to_text-render c) (
    parse_lines-render 1 (settings c) ([], default_config) (settings-IsPair c w)
    ∙ read_pairs-settings c w)

-- What `Save` writes of a configuration `Load` reads back as it was, where its texts fit on a line each:
-- no spaces at their ends, no line ends in them, no quotes around them, 65000 bytes at most; its numbers
-- are 64-bit integers; and its users have names without commas, not all of them empty.
pub load-save :
    (parse_url : Text → Option Url) (c : Config) (text : Text)
    → IsWritable c
    → save parse_url c ≡ inr text
    → load parse_url text ≡ inr c
unfolding save load
load-save parse_url c text w h = elim (Option-cases (validate parse_url c)) [
  | inr (err, v) ↦ absurd (ground (arith, h, v))
  | inl v ↦
      let written : to_text c ≡ text = ground (arith, h, v) in
      let read : parse text ≡ inr c = subst (λ t. parse t ≡ inr c) written (parse-to_text c w) in
      rw (read, v, load) refl
]
