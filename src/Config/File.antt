-- ===== src/Config/File.antt =====
-- internal/config/parse.go and config.go: the configuration file. `net/url` is a parameter: the scheme
-- and the host of a URL, or none where it is refused.
pub mod Lines
pub mod Scanned
pub mod Names
pub mod RoundTrip
pub mod Valid
use omj_agent.Base.{
  ℕ, suc, ◌≡◌, ◌⊎◌, inl, inr, Bool, true, false, not, ◌&&◌, ◌||◌, Option, none, some, List, [], ◌∷◌,
  ◌++◌, map, leb, ◌==◌, if◌then◌else◌, ℤ, pos, ltb_ℤ, min_ℤ,
}
use omj_agent.Text.{
  Text, codes, is_nil, size, text_eq, contains_text, has_prefix, cut_suffix, trim_suffix,
}
use omj_agent.Text.Trim.{trim_space}
use omj_agent.Text.Split.{cut, split, join, lines}
use omj_agent.Text.Decimal.{atoi, format}

pub record Config : Type 0 where
  pub server_url : Text
  pub machine_id : Text
  pub insecure_http : Bool
  pub log_level : Text
  pub max_concurrent_runs : ℤ
  pub max_timeout_seconds : ℤ
  pub max_output_bytes : ℤ
  pub run_as_allowed : List Text

-- `Default`
abbrev pub default_config : Config
default_config = record {
  server_url = [];
  machine_id = [];
  insecure_http = false;
  log_level = codes "info";
  max_concurrent_runs = pos 4;
  max_timeout_seconds = pos 259200;
  max_output_bytes = pos 104857600;
  run_as_allowed = [];
}

-- The errors of `Parse`, all but the last with the number of the line.
pub data ParseError : Type 0 where
  no_pair : ℕ → ParseError
  duplicate_key unknown_key : ℕ → Text → ParseError
  invalid_value : ℕ → Text → Text → ParseError
  token_too_long : ParseError

abbrev pub parse_bool : Text → Option Bool
parse_bool s =
    if contains_text (map codes ("1" ∷ "t" ∷ "T" ∷ "TRUE" ∷ "true" ∷ "True" ∷ [])) s
    then some true
    else if contains_text (map codes ("0" ∷ "f" ∷ "F" ∷ "FALSE" ∷ "false" ∷ "False" ∷ [])) s
    then some false
    else none

unfoldable pub split_list : Text → List Text
split_list value = if is_nil (trim_space value) then [] else map trim_space (split b',' value)

unfoldable pub unquote : Text → Text
unquote [] = []
unquote (c ∷ s) =
    if c == b'"'
    then (elim (cut_suffix (codes "\"") s) [ none ↦ c ∷ s | some inner ↦ inner ])
    else c ∷ s

-- The value that a key takes, or the error of `set`.
abbrev pub given {ℓ} :
    {A : Type ℓ} → ℕ → Text → Text → Option A → (A → Config) → ParseError ⊎ Config
given line key value none f = inl (invalid_value line key value)
given line key value (some a) f = inr (f a)

unfoldable pub set : ℕ → Text → Text → Config → ParseError ⊎ Config
set line key value c =
    if text_eq key (codes "server_url")
    then inr (record c { server_url = value })
    else if text_eq key (codes "machine_id")
    then inr (record c { machine_id = value })
    else if text_eq key (codes "insecure_http")
    then given line key value (parse_bool value) (λ b. record c { insecure_http = b })
    else if text_eq key (codes "log_level")
    then inr (record c { log_level = value })
    else if text_eq key (codes "max_concurrent_runs")
    then given line key value (atoi value) (λ n. record c { max_concurrent_runs = n })
    else if text_eq key (codes "max_timeout_seconds")
    then given line key value (atoi value) (λ n. record c { max_timeout_seconds = n })
    else if text_eq key (codes "max_output_bytes")
    then given line key value (atoi value) (λ n. record c { max_output_bytes = n })
    else if text_eq key (codes "run_as_allowed")
    then inr (record c { run_as_allowed = split_list value })
    else inl (unknown_key line key)

-- The keys that were read, and the configuration so far.
abbrev pub Parsing : Type 0
Parsing = List Text × Config

-- The body of `Parse`'s loop, for a key and its value.
unfoldable pub parse_pair : ℕ → Text → Text → Parsing → ParseError ⊎ Parsing
parse_pair line key value (seen, c) =
    if contains_text seen key
    then inl (duplicate_key line key)
    else elim (set line key value c) [ inl err ↦ inl err | inr c' ↦ inr (key ∷ seen, c') ]

-- The body of `Parse`'s loop, for the text of a line.
unfoldable pub parse_line : ℕ → Text → Parsing → ParseError ⊎ Parsing
parse_line line scanned p =
    let text = trim_space scanned in
    if is_nil text || has_prefix (codes "#") text then inr p else elim (cut b'=' text) [
      | none ↦ inl (no_pair line)
      | some (before, after) ↦ parse_pair line (trim_space before) (unquote (trim_space after)) p
    ]

-- A line without its end, as `bufio.ScanLines` gives it.
abbrev pub without_end : Text → Text
without_end line = trim_suffix (codes "\r") (trim_suffix (codes "\n") line)

-- A token of `bufio.MaxScanTokenSize` bytes, the line's feed left out, ends the scan.
abbrev pub is_too_long : Text → Bool
is_too_long line = leb 65536 (size (trim_suffix (codes "\n") line))

abbrev pub parse_lines : ℕ → List Text → Parsing → ParseError ⊎ Config
parse_lines line [] p = inr p.1
parse_lines line (l ∷ ls) p =
    if is_too_long l then inl token_too_long else elim (parse_line line (without_end l) p) [
      | inl err ↦ inl err
      | inr p' ↦ parse_lines (suc line) ls p'
    ]

unfoldable pub parse : Text → ParseError ⊎ Config
parse content = parse_lines 1 (lines content) ([], default_config)

abbrev pub format_bool : Bool → Text
format_bool true = codes "true"
format_bool false = codes "false"

-- One `Fprintf` of `String`.
abbrev pub setting : Text → Text → Text
setting key value = key ++ (codes " = " ++ (value ++ codes "\n"))

-- `String`
unfoldable pub to_text : Config → Text
to_text c =
    setting (codes "server_url") c.server_url
    ++ (setting (codes "machine_id") c.machine_id
        ++ (setting (codes "insecure_http") (format_bool c.insecure_http)
            ++ (setting (codes "log_level") c.log_level
                ++ (setting (codes "max_concurrent_runs") (format c.max_concurrent_runs)
                    ++ (setting (codes "max_timeout_seconds") (format c.max_timeout_seconds)
                        ++ (setting (codes "max_output_bytes") (format c.max_output_bytes)
                            ++ (if is_nil c.run_as_allowed
                                then []
                                else setting (codes "run_as_allowed")
                                    (join (codes ", ") c.run_as_allowed))))))))

pub record Url : Type 0 where
  pub scheme : Text
  pub host : Text

pub data ConfigError : Type 0 where
  no_server_url bad_server_url plain_http wrong_scheme bad_log_level : ConfigError
  bad_concurrent_runs bad_timeout bad_output_bytes empty_user : ConfigError
  user_twice : Text → ConfigError

pub data LoadError : Type 0 where
  not_parsed : ParseError → LoadError
  not_valid : ConfigError → LoadError

abbrev pub log_levels : List Text
log_levels = codes "debug" ∷ codes "info" ∷ codes "warn" ∷ codes "error" ∷ []

-- The loop of `validateRunAsAllowed`.
abbrev pub check_names : List Text → List Text → Option ConfigError
check_names seen [] = none
check_names seen (name ∷ names) =
    let rest = check_names (name ∷ seen) names in
    if is_nil name
    then some empty_user
    else if contains_text seen name
    then some (user_twice name)
    else rest

module _ (parse_url : Text → Option Url) where
  unfoldable pub validate_server_url : Config → Option ConfigError
  validate_server_url c =
      if is_nil c.server_url then some no_server_url else elim (parse_url c.server_url) [
        | none ↦ some bad_server_url
        | some u ↦
            if is_nil u.host
            then some bad_server_url
            else if text_eq u.scheme (codes "https")
            then none
            else if text_eq u.scheme (codes "http")
            then (if c.insecure_http then none else some plain_http)
            else some wrong_scheme
      ]

  unfoldable pub validate : Config → Option ConfigError
  validate c = elim (validate_server_url c) [
    | some err ↦ some err
    | none ↦
        if not (contains_text log_levels c.log_level)
        then some bad_log_level
        else if ltb_ℤ c.max_concurrent_runs (pos 1) || ltb_ℤ (pos 64) c.max_concurrent_runs
        then some bad_concurrent_runs
        else if ltb_ℤ c.max_timeout_seconds (pos 1)
        then some bad_timeout
        else if ltb_ℤ c.max_output_bytes (pos 1)
        then some bad_output_bytes
        else check_names [] c.run_as_allowed
  ]

  -- `Load`, from the content of the file.
  unfoldable pub load : Text → LoadError ⊎ Config
  load content = elim (parse content) [
    | inl err ↦ inl (not_parsed err)
    | inr c ↦ elim (validate c) [ some err ↦ inl (not_valid err) | none ↦ inr c ]
  ]

  -- `Save`: the content that is written.
  unfoldable pub save : Config → ConfigError ⊎ Text
  save c = elim (validate c) [ some err ↦ inl err | none ↦ inr (to_text c) ]
