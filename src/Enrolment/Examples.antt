-- ===== src/Enrolment/Examples.antt =====
-- The theorems about internal/enroll at concrete inputs.
use omj_agent.Base.{◌≡◌, refl, inr, true, false, Option, none, some, [], pos}
use omj_agent.Text.{Text, codes, is_space}
use omj_agent.Text.Trim.{trim_space}
use omj_agent.Client.Calls.{check_url}
use omj_agent.Config.File.{Url, validate, validate_server_url}
use omj_agent.Config.Credential.{new_credential, lacks_secret, save_credential}
use omj_agent.Config.RunAs.{resolve_run_as, check_all, first_err, names_of}
use omj_agent.Machine.{Info}
use omj_agent.Enrolment.{
  Options, World, absent, failed, validate_options, resolve_owner, existing_config, allowed_users,
  apply_owner, store, spend_token, prepare, enroll,
}
use omj_agent.Enrolment.Order.{IsReady, is_in_order, enroll-order, enroll-IsReady}
use omj_agent.Enrolment.Kept.{IsKept, enroll-IsKept}

abbrev https : Text → Option Url
https url = some record { scheme = codes "https"; host = codes "omj.example" }

abbrev request : Options
request = record {
  server_url = codes "https://omj.example";
  token = codes "omj_enroll_t";
  name = [];
  insecure_http = false;
  user = [];
  force = false;
}

abbrev laptop : Info
laptop = record {
  hostname = codes "laptop";
  os = codes "linux";
  os_version = [];
  arch = codes "amd64";
  kernel_version = [];
  reported_ips = [];
  agent_user = codes "omj";
  agent_uid = pos 1000;
}

abbrev fresh : World
fresh = record {
  system = record { uid = pos 1000; username = codes "omj"; lookup_user = λ name. none };
  config_file = absent;
  parse_url = https;
  probe = none;
  info = some laptop;
  answer = λ token users. inr record { machine_id = codes "m1"; credential = codes "omj_agent_x" };
  write_config = none;
  write_credential = none;
  give_config = none;
  give_credential = none;
}

-- The disk is full when the credential is written.
abbrev full_disk : World
full_disk = record fresh { write_credential = some failed }

enroll-order_example : is_in_order 0 (enroll request full_disk).0 ≡ true
enroll-order_example = enroll-order request full_disk

enroll-IsReady_example : IsReady request full_disk
unfolding enroll validate_options resolve_owner existing_config prepare check_url allowed_users
    resolve_run_as check_all first_err names_of spend_token
enroll-IsReady_example = enroll-IsReady request full_disk refl

enroll-IsKept_example : IsKept request fresh (enroll request fresh).0 (codes "m1")
unfolding enroll validate_options resolve_owner existing_config prepare check_url allowed_users
    resolve_run_as check_all first_err names_of spend_token new_credential lacks_secret trim_space
    is_space store validate validate_server_url save_credential apply_owner
enroll-IsKept_example = enroll-IsKept request fresh (codes "m1") refl
