-- ===== src/Enrolment/Order.antt =====
-- The order of enrolment, and when the token is spent.
use omj_agent.Base.{
  ℕ, suc, ◌≡◌, inl, inr, Bool, true, false, ◌&&◌, ◌||◌, none, some, List, [], ◌∷◌, ◌==◌, arith,
  Option-cases, ⊎-cases,
}
use omj_agent.Text.{Text, is_nil}
use omj_agent.Client.Calls.{check_url}
use omj_agent.Config.File.{Config}
use omj_agent.Config.Credential.{new_credential}
use omj_agent.Machine.{Info}
use omj_agent.Enrolment.{
  Options, World, Owner, Effect, probed_directory, sent_token, wrote_config, wrote_credential,
  gave_config, gave_credential, validate_options, enrolled_config, resolve_owner, existing_config,
  allowed_users, apply_owner, store, spend_token, prepare, enroll,
}

-- The place of each effect in an enrolment.
abbrev pub place : Effect → ℕ
place probed_directory = 0
place (sent_token token users) = 1
place (wrote_config text) = 2
place (wrote_credential text) = 3
place (gave_config uid gid) = 4
place (gave_credential uid gid) = 5

-- Each effect has its place, from `k` on, and none is left out between two.
abbrev pub is_in_order : ℕ → List Effect → Bool
is_in_order k [] = true
is_in_order k (e ∷ es) = (place e == k) && is_in_order (suc k) es

-- Whether the token was sent.
abbrev pub any_sent : List Effect → Bool
any_sent [] = false
any_sent (e ∷ es) = place e == 1 || any_sent es

apply_owner-order : (w : World) (o : Owner) (m : Text) → is_in_order 4 (apply_owner w o m).0 ≡ true
unfolding apply_owner
apply_owner-order w o m = ground arith

store-order :
    (w : World) (o : Owner) (c : Config) (m secret : Text)
    → is_in_order 2 (store w o c m secret).0 ≡ true
unfolding store
store-order w o c m secret = ground (arith, apply_owner-order w o m)

module _ (o : Options) (w : World) where
  spend_token-order :
      (owner : Owner) (c : Config) (users : List Text)
      → is_in_order 1 (spend_token o w owner c users).0 ≡ true
  unfolding spend_token
  spend_token-order owner c users = elim (⊎-cases (w.answer o.token users)) [
    | inl (err, a) ↦ ground (arith, a)
    | inr (r, a) ↦ elim (Option-cases (new_credential r.credential)) [
      | inl n ↦ ground (arith, a, n)
      | inr (secret, n) ↦
          ground (arith, a, n, store-order w owner (enrolled_config o r c) r.machine_id secret)
    ]
  ]

  prepare-order : (owner : Owner) (c : Config) → is_in_order 0 (prepare o w owner c).0 ≡ true
  unfolding prepare
  prepare-order owner c = elim (Option-cases w.info) [
    | inl i ↦ ground (arith, i)
    | inr (info, i) ↦ elim (⊎-cases (allowed_users c info w.system)) [
      | inl (reason, a) ↦ ground (arith, i, a)
      | inr (users, a) ↦ ground (arith, i, a, spend_token-order owner c users)
    ]
  ]

  -- Whatever fails, an enrolment does these in this order and leaves out none before the last that it
  -- does: it probes the directory, sends the token, writes the configuration, writes the credential, and
  -- hands over the one and the other.
  pub enroll-order : is_in_order 0 (enroll o w).0 ≡ true
  unfolding enroll
  enroll-order = elim (⊎-cases (resolve_owner w.system o.user)) [
    | inl (reason, a) ↦ ground (arith, a)
    | inr (owner, a) ↦ elim (⊎-cases (existing_config w.config_file o.force)) [
      | inl (reason, e) ↦ ground (arith, a, e)
      | inr (c, e) ↦ ground (arith, a, e, prepare-order owner c)
    ]
  ]

  record IsPrepared (c : Config) : Type 0 where
    info : Info
    users : List Text
    writable : w.probe ≡ none
    secure : check_url (w.parse_url o.server_url) o.insecure_http ≡ none
    known : w.info ≡ some info
    allowed : allowed_users c info w.system ≡ inr users

  prepare-IsPrepared :
      (owner : Owner) (c : Config) → any_sent (prepare o w owner c).0 ≡ true → IsPrepared c
  unfolding prepare
  prepare-IsPrepared owner c h = elim (Option-cases w.info) [
    | inl i ↦ absurd (ground (arith, h, i))
    | inr (info, i) ↦ elim (⊎-cases (allowed_users c info w.system)) [
      | inl (reason, a) ↦ absurd (ground (arith, h, i, a))
      | inr (users, a) ↦ record {
        info = info;
        users = users;
        writable = ground (arith, h);
        secure = ground (arith, h);
        known = i;
        allowed = a;
      }
    ]
  ]

  -- What was found before the token was spent.
  pub record IsReady : Type 0 where
    pub owner : Owner
    pub config : Config
    pub info : Info
    pub users : List Text
    pub well_formed : validate_options o ≡ none
    pub owned : resolve_owner w.system o.user ≡ inr owner
    pub read : existing_config w.config_file o.force ≡ inr config
    pub not_enrolled : (is_nil config.machine_id || o.force) ≡ true
    pub writable : w.probe ≡ none
    pub secure : check_url (w.parse_url o.server_url) o.insecure_http ≡ none
    pub known : w.info ≡ some info
    pub allowed : allowed_users config info w.system ≡ inr users

  -- An enrolment that sends its token has a well-formed request, an owner for its files, a configuration
  -- that could be read and that is not enrolled or replaced by force, a directory that can be written, a
  -- secure URL, and an allowlist that the machine can honour.
  pub enroll-IsReady : any_sent (enroll o w).0 ≡ true → IsReady
  unfolding enroll
  enroll-IsReady h = elim (Option-cases (validate_options o)) [
    | inr (reason, v) ↦ absurd (ground (arith, h, v))
    | inl v ↦ elim (⊎-cases (resolve_owner w.system o.user)) [
      | inl (reason, a) ↦ absurd (ground (arith, h, v, a))
      | inr (owner, a) ↦ elim (⊎-cases (existing_config w.config_file o.force)) [
        | inl (reason, e) ↦ absurd (ground (arith, h, v, a, e))
        | inr (c, e) ↦
            let free : (is_nil c.machine_id || o.force) ≡ true = ground (arith, h, v, a, e) in
            let r = prepare-IsPrepared owner c (ground (arith, h, v, a, e, free)) in
            record {
              owner = owner;
              config = c;
              info = r.info;
              users = r.users;
              well_formed = v;
              owned = a;
              read = e;
              not_enrolled = free;
              writable = r.writable;
              secure = r.secure;
              known = r.known;
              allowed = r.allowed;
            }
      ]
    ]
  ]
