-- ===== src/Doctor.antt =====
-- internal/doctor: the checks of an installation. What the files, the server, the user database and
-- systemctl answer is a parameter. The details of the checks, texts for a person, are left out.
pub mod Health
mod Examples
use omj_agent.Base.{
  ℕ, ◌+◌, ◌-◌, ◌%◌, Bool, true, false, not, ◌&&◌, ◌||◌, Option, none, some, List, [], ◌∷◌, ltb,
  ◌==◌, if◌then◌else◌, is_some, ℤ, is_zero,
}
use omj_agent.Text.{Text, codes, is_nil, text_eq}
use omj_agent.Text.Trim.{trim_space}
use omj_agent.Text.Split.{cut, split}
use omj_agent.Client.Errors.{
  ClientError, Fault, no_credential, certificate, net_error, as_api_error, is_fault,
  is_unauthorized, is_unsupported_protocol,
}
use omj_agent.Config.File.{Config}
use omj_agent.Config.RunAs.{RunAsUser, RunAsHost, resolve_run_as, first_err}

pub data Status : Type 0 where
  pass warn fail : Status

pub record Check : Type 0 where
  pub name : Text
  pub status : Status

abbrev pub check : Text → Status → Check
check name status = record { name = name; status = status }

abbrev pub is_fail : Status → Bool
is_fail fail = true
is_fail pass = false
is_fail warn = false

-- `Report.Failed`
abbrev pub any_failed : List Check → Bool
any_failed [] = false
any_failed (c ∷ cs) = is_fail c.status || any_failed cs

pub data ProbeError : Type 0 where
  skipped : ProbeError
  failed : ClientError → ProbeError

-- The error of a probe, if it has one, and the distance of the two clocks in nanoseconds.
pub record Probe : Type 0 where
  pub err : Option ProbeError
  pub skew : ℕ

abbrev is_no_credential : Fault → Bool
is_no_credential no_credential = true
is_no_credential _ = false

abbrev is_certificate : Fault → Bool
is_certificate certificate = true
is_certificate _ = false

abbrev is_net_error : Fault → Bool
is_net_error net_error = true
is_net_error _ = false

abbrev pub reachable_check : Bool → Status
reachable_check insecure = if insecure then warn else pass

unfoldable pub server_check : Bool → Option ProbeError → Status
server_check insecure none = reachable_check insecure
server_check insecure (some skipped) = warn
server_check insecure (some (failed err)) =
    if is_fault is_no_credential err
    then fail
    else if is_fault is_certificate err
    then fail
    else if is_unauthorized err
    then fail
    else if is_some (as_api_error err)
    then reachable_check insecure
    else if is_fault is_net_error err
    then fail
    else fail

unfoldable pub check_protocol : Option ProbeError → Status
check_protocol none = pass
check_protocol (some skipped) = warn
check_protocol (some (failed err)) =
    if is_unsupported_protocol err && is_some (as_api_error err) then fail else warn

-- 30 seconds and 100 milliseconds
abbrev pub max_clock_skew : ℕ
max_clock_skew = 30000000000

abbrev pub tenth : ℕ
tenth = 100000000

-- `Duration.Round` of a duration that is not negative: half a unit is rounded up.
unfoldable pub round : ℕ → ℕ → ℕ
round unit d = let r = d % unit in if ltb (r + r) unit then d - r else d + unit - r

unfoldable pub check_clock : Probe → Status
check_clock p =
    if is_some p.err then warn else if ltb max_clock_skew (round tenth p.skew) then fail else pass

-- `values[key]`, which the last line with the key sets.
abbrev pub shown : Text → List Text → Text → Text
shown key [] value = value
shown key (l ∷ ls) value = shown key ls (elim (cut b'=' (trim_space l)) [
  | none ↦ value
  | some (k, v) ↦ if text_eq k key then v else value
])

pub record Systemctl : Type 0 where
  pub available : Bool
  pub enabled : Text
  pub active : Text
  pub user_lines : Option Text
  pub hardening_lines : Option Text

unfoldable pub check_unit_user : Text → Systemctl → Status
check_unit_user username s = if not s.available then warn else elim s.user_lines [
  | none ↦ warn
  | some out ↦
      let ls = split b'\n' out in
      let user = shown (codes "User") ls [] in
      let service_user = if is_nil user then codes "root" else user in
      if not (text_eq (shown (codes "LoadState") ls []) (codes "loaded"))
      then warn
      else if not (text_eq service_user username)
      then warn
      else pass
]

unfoldable pub check_unit_state : Systemctl → Status
check_unit_state s =
    if not s.available
    then warn
    else if not (text_eq s.enabled (codes "enabled")) || not (text_eq s.active (codes "active"))
    then fail
    else pass

unfoldable pub check_hardening : Systemctl → Status
check_hardening s = if not s.available then warn else elim s.hardening_lines [
  | none ↦ warn
  | some out ↦
      if text_eq (shown (codes "NoNewPrivileges") (split b'\n' out) []) (codes "yes")
      then warn
      else pass
]

unfoldable pub check_root : ℤ → Status
check_root uid = if is_zero uid then warn else pass

unfoldable pub check_run_as : List Text → RunAsHost → Status
check_run_as allowed h = if is_some (first_err (resolve_run_as allowed h)) then fail else pass

-- What the checks ask. `probe` is the answer of the server to the configuration and the credential.
pub record Host : Type 0 where
  pub run_as : RunAsHost
  pub config : Option Config
  pub credential : Option Text
  pub state_dir_writable : Bool
  pub probe : Config → Text → Probe
  pub systemctl : Systemctl

abbrev pub passes : Bool → Status
passes ok = if ok then pass else fail

-- `Run`'s probe, which is made only where both files can be read.
unfoldable pub probe_of : Host → Probe
probe_of h = elim h.config [
  | none ↦ record { err = some skipped; skew = 0 }
  | some c ↦ elim h.credential [
    | none ↦ record { err = some skipped; skew = 0 }
    | some secret ↦ h.probe c secret
  ]
]

abbrev pub insecure_of : Option Config → Bool
insecure_of none = false
insecure_of (some c) = c.insecure_http

unfoldable pub run : Host → List Check
run h =
    let p = probe_of h in
    check (codes "configuration") (passes (is_some h.config))
    ∷ check (codes "credential") (passes (is_some h.credential))
    ∷ check (codes "state directory") (passes h.state_dir_writable)
    ∷ check (codes "server") (server_check (insecure_of h.config) p.err)
    ∷ check (codes "protocol") (check_protocol p.err)
    ∷ check (codes "clock") (check_clock p)
    ∷ check (codes "service user") (check_unit_user h.run_as.username h.systemctl)
    ∷ check (codes "service") (check_unit_state h.systemctl)
    ∷ check (codes "hardening") (check_hardening h.systemctl)
    ∷ check (codes "privileges") (check_root h.run_as.uid)
    ∷ check (codes "execution users")
        (elim h.config [ none ↦ warn | some c ↦ check_run_as c.run_as_allowed h.run_as ])
    ∷ []
