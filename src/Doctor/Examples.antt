-- ===== src/Doctor/Examples.antt =====
-- The theorem about internal/doctor at a concrete input.
use omj_agent.Base.{◌≡◌, true, false, not, none, some, [], pos}
use omj_agent.Text.{codes}
use omj_agent.Config.File.{default_config}
use omj_agent.Doctor.{Host, Systemctl, any_failed, run}
use omj_agent.Doctor.Health.{is_healthy, run-failed}

abbrev no_systemd : Systemctl
no_systemd = record {
  available = false;
  enabled = [];
  active = [];
  user_lines = none;
  hardening_lines = none;
}

abbrev late_host : Host
late_host = record {
  run_as = record { uid = pos 1000; username = codes "omj"; lookup = λ name. none };
  config = some default_config;
  credential = some (codes "omj_agent_x");
  state_dir_writable = true;
  probe = λ c secret. record { err = none; skew = 31000000000 };
  systemctl = no_systemd;
}

run-failed_example : any_failed (run late_host) ≡ not (is_healthy late_host)
run-failed_example = run-failed late_host
