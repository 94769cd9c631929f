-- ===== src/Enrolment.antt =====
-- internal/enroll/enroll.go. What the file system, the user database, the system calls and the server
-- answer is a parameter. The texts of the errors are left out, their reasons kept.
pub mod Order
pub mod Kept
mod Examples
use omj_agent.Base.{
  ℕ, ◌⊎◌, inl, inr, Bool, true, false, not, ◌&&◌, ◌||◌, Option, none, some, List, [], ◌∷◌, ◌++◌,
  map, ◌==◌, if◌then◌else◌, ℤ, pos, is_zero, str_eq,
}
use omj_agent.Text.{Text, codes, is_nil, has_prefix, text_eq}
use omj_agent.Client.Errors.{
  ApiError, ClientError, Fault, certificate, net_error, as_api_error, is_fault,
}
use omj_agent.Client.Calls.{check_url}
use omj_agent.Config.File.{Config, Url, default_config, parse, to_text, validate}
use omj_agent.Config.Credential.{new_credential, save_credential}
use omj_agent.Config.RunAs.{RunAsHost, resolve_run_as, first_err, names_of}
use omj_agent.Machine.{Info}

abbrev pub token_prefix : Text
token_prefix = codes "omj_enroll_"

abbrev pub default_owner : Text
default_owner = codes "ohmyjob"

pub data Reason : Type 0 where
  unknown invalid_input already_enrolled token_invalid token_expired : Reason
  unsupported_os version_rejected throttled unreachable permission : Reason

pub record Options : Type 0 where
  pub server_url : Text
  pub token : Text
  pub name : Text
  pub insecure_http : Bool
  pub user : Text
  pub force : Bool

-- Whether an error of the file system is a refused permission.
pub data FsError : Type 0 where
  refused failed : FsError

unfoldable pub classify_filesystem : FsError → Reason
classify_filesystem refused = permission
classify_filesystem failed = unknown

pub data ExistingFile : Type 0 where
  absent : ExistingFile
  unreadable : FsError → ExistingFile
  content : Text → ExistingFile

pub record System : Type 0 where
  pub uid : ℤ
  pub username : Text
  pub lookup_user : Text → Option (ℤ × ℤ)

pub record Response : Type 0 where
  pub machine_id : Text
  pub credential : Text

-- What is done to the machine, and the one call of the server.
pub data Effect : Type 0 where
  probed_directory : Effect
  sent_token : Text → List Text → Effect
  wrote_config wrote_credential : Text → Effect
  gave_config gave_credential : ℤ → ℤ → Effect

-- What each effect meets; an error is `some`.
pub record World : Type 0 where
  pub system : System
  pub config_file : ExistingFile
  pub parse_url : Text → Option Url
  pub probe : Option FsError
  pub info : Option Info
  pub answer : Text → List Text → ClientError ⊎ Response
  pub write_config : Option FsError
  pub write_credential : Option FsError
  pub give_config : Option FsError
  pub give_credential : Option FsError

unfoldable pub validate_options : Options → Option Reason
validate_options o =
    if is_nil o.server_url
    then some invalid_input
    else if not (has_prefix token_prefix o.token) || text_eq o.token token_prefix
    then some invalid_input
    else none

pub record Owner : Type 0 where
  pub name : Text
  pub uid : ℤ
  pub gid : ℤ
  pub change : Bool

-- Nobody else's: the files stay with the user that writes them.
abbrev pub keeps : Text → Owner
keeps name = record { name = name; uid = pos 0; gid = pos 0; change = false }

unfoldable pub resolve_owner : System → Text → Reason ⊎ Owner
resolve_owner sys user =
    let root = is_zero sys.uid in
    let default = elim (if root then sys.lookup_user default_owner else none) as (λ x. Owner) [
      | some (uid, gid) ↦ record { name = default_owner; uid = uid; gid = gid; change = true }
      | none ↦ keeps sys.username
    ] in
    if is_nil user
    then inr default
    else if text_eq user sys.username
    then inr (keeps user)
    else if not root
    then inl permission
    else elim (sys.lookup_user user) [
      | none ↦ inl invalid_input
      | some (uid, gid) ↦ inr record { name = user; uid = uid; gid = gid; change = true }
    ]

unfoldable pub existing_config : ExistingFile → Bool → Reason ⊎ Config
existing_config absent force = inr default_config
existing_config (unreadable err) force = inl (classify_filesystem err)
existing_config (content text) force = elim (parse text) [
  | inr c ↦ inr c
  | inl err ↦ if force then inr default_config else inl unknown
]

abbrev uid_of : Option (ℤ × ℤ) → Option ℤ
uid_of none = none
uid_of (some (uid, gid)) = some uid

unfoldable pub allowed_users : Config → Info → System → Reason ⊎ List Text
allowed_users c info sys =
    let host : RunAsHost = record {
      uid = info.agent_uid;
      username = info.agent_user;
      lookup = λ name. uid_of (sys.lookup_user name);
    } in
    let run_as = resolve_run_as c.run_as_allowed host in
    elim (first_err run_as) [ some err ↦ inl invalid_input | none ↦ inr (names_of run_as) ]

unfoldable pub classify_api_error : ApiError → Reason
classify_api_error e =
    if e.status == 401
    then token_invalid
    else if e.status == 410
    then token_expired
    else if str_eq e.code "unsupported_os"
    then unsupported_os
    else if e.status == 426
    then version_rejected
    else if e.status == 429
    then throttled
    else unknown

abbrev is_certificate : Fault → Bool
is_certificate certificate = true
is_certificate _ = false

abbrev is_net_error : Fault → Bool
is_net_error net_error = true
is_net_error _ = false

unfoldable pub classify_server : ClientError → Reason
classify_server err = elim (as_api_error err) [
  | some e ↦ classify_api_error e
  | none ↦
      if is_fault is_certificate err
      then unreachable
      else if is_fault is_net_error err
      then unreachable
      else unknown
]

-- What was done, and the reason of the failure or the identity of the machine.
abbrev pub Outcome : Type 0
Outcome = List Effect × (Reason ⊎ Text)

-- An effect before what follows it.
abbrev pub after : Effect → Outcome → Outcome
after e o = (e ∷ o.0, o.1)

abbrev pub refuse : Reason → Outcome
refuse r = ([], inl r)

-- `owner.apply`, and the result.
unfoldable pub apply_owner : World → Owner → Text → Outcome
apply_owner w o machine_id =
    if not o.change
    then ([], inr machine_id)
    else after (gave_config o.uid o.gid) (elim w.give_config [
      | some err ↦ refuse (classify_filesystem err)
      | none ↦ after (gave_credential o.uid o.gid) (elim w.give_credential [
        | some err ↦ refuse (classify_filesystem err)
        | none ↦ ([], inr machine_id)
      ])
    ])

-- `Enroll`, from the response on: a write that fails is an effect too. `config.Save` and
-- `config.SaveCredential` refuse what they do not accept before they write.
unfoldable pub store : World → Owner → Config → Text → Text → Outcome
store w o c machine_id secret = elim (validate w.parse_url c) [
  | some err ↦ refuse unknown
  | none ↦ after (wrote_config (to_text c)) (elim w.write_config [
    | some err ↦ refuse (classify_filesystem err)
    | none ↦ elim (save_credential secret) [
      | none ↦ refuse unknown
      | some text ↦ after (wrote_credential text) (elim w.write_credential [
        | some err ↦ refuse (classify_filesystem err)
        | none ↦ apply_owner w o machine_id
      ])
    ]
  ])
]

abbrev pub enrolled_config : Options → Response → Config → Config
enrolled_config o r c = record c {
  server_url = o.server_url;
  machine_id = r.machine_id;
  insecure_http = o.insecure_http;
}

-- `Enroll`, from the call of the server on.
unfoldable pub spend_token : Options → World → Owner → Config → List Text → Outcome
spend_token o w owner c users = after (sent_token o.token users) (elim (w.answer o.token users) [
  | inl err ↦ refuse (classify_server err)
  | inr r ↦ elim (new_credential r.credential) [
    | none ↦ refuse unknown
    | some secret ↦ store w owner (enrolled_config o r c) r.machine_id secret
  ]
])

-- `Enroll`, from the probe of the directory on.
unfoldable pub prepare : Options → World → Owner → Config → Outcome
prepare o w owner c = after probed_directory (elim w.probe [
  | some err ↦ refuse (classify_filesystem err)
  | none ↦ elim (check_url (w.parse_url o.server_url) o.insecure_http) [
    | some err ↦ refuse invalid_input
    | none ↦ elim w.info [
      | none ↦ refuse unknown
      | some info ↦ elim (allowed_users c info w.system) [
        | inl reason ↦ refuse reason
        | inr users ↦ spend_token o w owner c users
      ]
    ]
  ]
])

unfoldable pub enroll : Options → World → Outcome
enroll o w = elim (validate_options o) [
  | some reason ↦ refuse reason
  | none ↦ elim (resolve_owner w.system o.user) [
    | inl reason ↦ refuse reason
    | inr owner ↦ elim (existing_config w.config_file o.force) [
      | inl reason ↦ refuse reason
      | inr c ↦
          if not (is_nil c.machine_id) && not o.force
          then refuse already_enrolled
          else prepare o w owner c
    ]
  ]
]
