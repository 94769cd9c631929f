-- ===== src/Enrolment/Kept.antt =====
-- What an enrolment leaves on the machine.
use omj_agent.Base.{
  ◌≡◌, refl, inl, inr, none, some, List, [], ◌∷◌, arith, Option-cases, ⊎-cases, subst, sym, ◌∙◌,
}
use omj_agent.Text.{Text}
use omj_agent.Config.File.{Config, to_text, validate}
use omj_agent.Config.Credential.{new_credential, save_credential}
use omj_agent.Enrolment.{
  Options, World, Owner, Effect, probed_directory, sent_token, wrote_config, wrote_credential,
  enrolled_config, resolve_owner, existing_config, allowed_users, apply_owner, store, spend_token,
  prepare, enroll,
}

-- The writes that an enrolment did.
abbrev pub configs : List Effect → List Text
configs [] = []
configs (wrote_config t ∷ es) = t ∷ configs es
configs (e ∷ es) = configs es

abbrev pub credentials : List Effect → List Text
credentials [] = []
credentials (wrote_credential t ∷ es) = t ∷ credentials es
credentials (e ∷ es) = credentials es

-- What an enrolment as `machine_id` leaves: one configuration, valid, that names the server and the
-- machine, and one credential that was accepted.
pub record IsKept (o : Options) (w : World) (es : List Effect) (machine_id : Text) : Type 0 where
  pub config : Config
  pub secret : Text
  pub text : Text
  pub configs_are : configs es ≡ to_text config ∷ []
  pub valid : validate w.parse_url config ≡ none
  pub server : config.server_url ≡ o.server_url
  pub machine : config.machine_id ≡ machine_id
  pub insecure : config.insecure_http ≡ o.insecure_http
  pub saved : save_credential secret ≡ some text
  pub credentials_are : credentials es ≡ text ∷ []

module _ (o : Options) (w : World) where
  apply_owner-kept :
      (owner : Owner) (m : Text)
      → (configs (apply_owner w owner m).0 ≡ []) × (credentials (apply_owner w owner m).0 ≡ [])
  unfolding apply_owner
  apply_owner-kept owner m = ground arith

  apply_owner-machine : (owner : Owner) (m n : Text) → (apply_owner w owner m).1 ≡ inr n → m ≡ n
  unfolding apply_owner
  apply_owner-machine owner m n h = ground (arith, h)

  store-IsKept :
      (owner : Owner) (c : Config) (secret n : Text)
      → c.server_url ≡ o.server_url
      → c.insecure_http ≡ o.insecure_http
      → (store w owner c c.machine_id secret).1 ≡ inr n
      → IsKept o w (store w owner c c.machine_id secret).0 n
  unfolding store
  store-IsKept owner c secret n s i h = elim (Option-cases (validate w.parse_url c)) [
    | inr (err, v) ↦ absurd (ground (arith, h, v))
    | inl v ↦ elim (Option-cases (save_credential secret)) [
      | inl e ↦ absurd (ground (arith, h, v, e))
      | inr (text, e) ↦ record {
        config = c;
        secret = secret;
        text = text;
        configs_are = ground (arith, h, v, e, apply_owner-kept owner c.machine_id);
        valid = v;
        server = s;
        machine = ground (arith, h, v, e, apply_owner-machine owner c.machine_id n);
        insecure = i;
        saved = e;
        credentials_are = ground (arith, h, v, e, apply_owner-kept owner c.machine_id);
      }
    ]
  ]

  -- An effect that writes neither file.
  with_effect :
      (e : Effect) (es : List Effect) (n : Text)
      → configs (e ∷ es) ≡ configs es
      → credentials (e ∷ es) ≡ credentials es
      → IsKept o w es n
      → IsKept o w (e ∷ es) n
  with_effect e es n c d k = record {
    config = k.config;
    secret = k.secret;
    text = k.text;
    configs_are = c ∙ k.configs_are;
    valid = k.valid;
    server = k.server;
    machine = k.machine;
    insecure = k.insecure;
    saved = k.saved;
    credentials_are = d ∙ k.credentials_are;
  }

  spend_token-IsKept :
      (owner : Owner) (c : Config) (users : List Text) (n : Text)
      → (spend_token o w owner c users).1 ≡ inr n
      → IsKept o w (spend_token o w owner c users).0 n
  unfolding spend_token
  spend_token-IsKept owner c users n h = elim (⊎-cases (w.answer o.token users)) [
    | inl (err, a) ↦ absurd (ground (arith, h, a))
    | inr (r, a) ↦ elim (Option-cases (new_credential r.credential)) [
      | inl e ↦ absurd (ground (arith, h, a, e))
      | inr (secret, e) ↦
          let stored = store w owner (enrolled_config o r c) r.machine_id secret in
          let ended : stored.1 ≡ inr n = ground (arith, h, a, e) in
          rw (a, e, spend_token)
            (with_effect (sent_token o.token users) stored.0 n refl refl
              (store-IsKept owner (enrolled_config o r c) secret n refl refl ended))
    ]
  ]

  prepare-IsKept :
      (owner : Owner) (c : Config) (n : Text)
      → (prepare o w owner c).1 ≡ inr n
      → IsKept o w (prepare o w owner c).0 n
  unfolding prepare
  prepare-IsKept owner c n h = elim (Option-cases w.info) [
    | inl i ↦ absurd (ground (arith, h, i))
    | inr (info, i) ↦ elim (⊎-cases (allowed_users c info w.system)) [
      | inl (reason, a) ↦ absurd (ground (arith, h, i, a))
      | inr (users, a) ↦
          let spent = spend_token o w owner c users in
          let shape : prepare o w owner c ≡ (probed_directory ∷ spent.0, spent.1) =
            ground (arith, h, i, a) in
          let ended : spent.1 ≡ inr n = ground (arith, h, shape) in
          subst (λ es. IsKept o w es n) {x = probed_directory ∷ spent.0} (ground (arith, shape))
            (with_effect probed_directory spent.0 n refl refl
              (spend_token-IsKept owner c users n ended))
    ]
  ]

  -- An enrolment that succeeds has written one configuration and one credential. The configuration
  -- passes `Validate`, names the server that was asked for and the machine that is answered; the
  -- credential is not empty.
  pub enroll-IsKept : (n : Text) → (enroll o w).1 ≡ inr n → IsKept o w (enroll o w).0 n
  unfolding enroll
  enroll-IsKept n h = elim (⊎-cases (resolve_owner w.system o.user)) [
    | inl (reason, a) ↦ absurd (ground (arith, h, a))
    | inr (owner, a) ↦ elim (⊎-cases (existing_config w.config_file o.force)) [
      | inl (reason, e) ↦ absurd (ground (arith, h, a, e))
      | inr (c, e) ↦
          let shape : enroll o w ≡ prepare o w owner c = ground (arith, h, a, e) in
          subst (λ x. IsKept o w x.0 n) (sym shape)
            (prepare-IsKept owner c n (ground (arith, h, shape)))
    ]
  ]
