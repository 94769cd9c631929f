-- ===== src/Doctor/Health.antt =====
-- When a report fails.
use omj_agent.Base.{
  ℕ, ◌≡◌, refl, inl, inr, Bool, true, false, not, ◌&&◌, ◌||◌, Option, none, some, ltb, leb, is_some,
  arith, Option-cases,
}
use omj_agent.Text.{Text, codes, text_eq}
use omj_agent.Client.Errors.{as_api_error, is_fault, is_unauthorized, is_unsupported_protocol}
use omj_agent.Config.File.{Config}
use omj_agent.Config.RunAs.{RunAsHost, resolve_run_as, first_err}
use omj_agent.Doctor.{
  warn, any_failed, is_fail, ProbeError, skipped, failed, Probe, is_no_credential, is_certificate,
  server_check, check_protocol, round, tenth, max_clock_skew, check_clock, Systemctl,
  check_unit_user, check_unit_state, check_hardening, check_root, check_run_as, Host, insecure_of,
  probe_of, run,
}

-- An answer that proves the server to be there and to speak with this agent.
abbrev pub is_answer : Option ProbeError → Bool
is_answer none = true
is_answer (some skipped) = true
is_answer (some (failed err)) =
    is_some (as_api_error err)
    && not (is_unauthorized err)
    && not (is_unsupported_protocol err)
    && not (is_fault is_no_credential err)
    && not (is_fault is_certificate err)

server-answer :
    (insecure : Bool) (e : Option ProbeError)
    → (is_fail (server_check insecure e) || is_fail (check_protocol e)) ≡ not (is_answer e)
unfolding server_check check_protocol
server-answer true none = refl
server-answer false none = refl
server-answer insecure (some skipped) = refl
server-answer insecure (some (failed err)) = ground arith

round-over : (d : ℕ) → ltb max_clock_skew (round tenth d) ≡ leb 30050000000 d
unfolding round
round-over d = ground arith

clock-over : (p : Probe) → is_fail (check_clock p) ≡ (not (is_some p.err) && leb 30050000000 p.skew)
unfolding check_clock
clock-over p = ground (arith, round-over p.skew)

unit_user-advice : (username : Text) (s : Systemctl) → is_fail (check_unit_user username s) ≡ false
unfolding check_unit_user
unit_user-advice username s = elim (Option-cases s.user_lines) [
  | inl e ↦ ground (arith, e)
  | inr (out, e) ↦ ground (arith, e)
]

hardening-advice : (s : Systemctl) → is_fail (check_hardening s) ≡ false
unfolding check_hardening
hardening-advice s = elim (Option-cases s.hardening_lines) [
  | inl e ↦ ground (arith, e)
  | inr (out, e) ↦ ground (arith, e)
]

-- The service runs, or there is no systemd to run it.
abbrev pub is_served : Systemctl → Bool
is_served s =
    not s.available || (text_eq s.enabled (codes "enabled") && text_eq s.active (codes "active"))

unit_state-served : (s : Systemctl) → is_fail (check_unit_state s) ≡ not (is_served s)
unfolding check_unit_state
unit_state-served s = ground arith

-- The allowlist of a configuration that was read has no user that the machine refuses.
abbrev pub is_permitted : Option Config → RunAsHost → Bool
is_permitted none h = true
is_permitted (some c) h = not (is_some (first_err (resolve_run_as c.run_as_allowed h)))

run_as-permitted :
    (c : Option Config) (h : RunAsHost)
    → is_fail (elim c [ none ↦ warn | some c ↦ check_run_as c.run_as_allowed h ])
      ≡ not (is_permitted c h)
unfolding check_run_as
run_as-permitted none h = refl
run_as-permitted (some c) h = ground arith

root-advice : (h : Host) → is_fail (check_root h.run_as.uid) ≡ false
unfolding check_root
root-advice h = ground arith

abbrev pub is_healthy : Host → Bool
is_healthy h =
    let p = probe_of h in
    is_some h.config
    && is_some h.credential
    && h.state_dir_writable
    && is_answer p.err
    && (is_some p.err || not (leb 30050000000 p.skew))
    && is_served h.systemctl
    && is_permitted h.config h.run_as

-- A report fails exactly if the configuration or the credential cannot be read, the state directory
-- cannot be written, the server was asked and did not answer this agent, a server that answered has a
-- clock 30.05 seconds or more away, systemd is there and does not run the service, or the allowlist
-- names a user that the machine refuses. Nothing else that is checked fails a report.
pub run-failed : (h : Host) → any_failed (run h) ≡ not (is_healthy h)
unfolding run
run-failed h =
    let p = probe_of h in
    ground (
      arith,
      server-answer (insecure_of h.config) p.err,
      clock-over p,
      unit_user-advice h.run_as.username h.systemctl,
      unit_state-served h.systemctl,
      hardening-advice h.systemctl,
      root-advice h,
      run_as-permitted h.config h.run_as,
    )
