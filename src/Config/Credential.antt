-- ===== src/Config/Credential.antt =====
-- internal/config/credential.go. What the file system says of the file is a parameter.
use omj_agent.Base.{
  ℕ, ◌⊎◌, inl, inr, Bool, false, not, ◌||◌, Option, none, some, ◌++◌, ◌==◌, if◌then◌else◌,
}
use omj_agent.Text.{Text, codes, is_nil, has_prefix, text_eq}
use omj_agent.Text.Trim.{trim_space}

abbrev pub credential_prefix : Text
credential_prefix = codes "omj_agent_"

-- No prefix, or nothing after it.
unfoldable pub lacks_secret : Text → Bool
lacks_secret secret = not (has_prefix credential_prefix secret) || text_eq secret credential_prefix

-- `NewCredential`, which yields the secret.
unfoldable pub new_credential : Text → Option Text
new_credential value =
    let secret = trim_space value in if lacks_secret secret then none else some secret

-- What `os.Stat` and `os.ReadFile` answer: the owner where the platform knows one.
pub record CredentialFile : Type 0 where
  pub mode : ℕ
  pub owner : Option ℕ
  pub content : Option Text

pub data CredentialError : Type 0 where
  not_there wrong_mode wrong_owner not_readable not_a_credential : CredentialError

-- 0o600
abbrev pub credential_file_mode : ℕ
credential_file_mode = 384

unfoldable pub load_credential : Option CredentialFile → ℕ → CredentialError ⊎ Text
load_credential none current_uid = inl not_there
load_credential (some f) current_uid =
    if not (f.mode == credential_file_mode)
    then inl wrong_mode
    else if (elim f.owner [ none ↦ false | some owner ↦ not (owner == current_uid) ])
    then inl wrong_owner
    else elim f.content [
      | none ↦ inl not_readable
      | some content ↦ elim (new_credential content) [
        | none ↦ inl not_a_credential
        | some secret ↦ inr secret
      ]
    ]

-- The content that `SaveCredential` writes, or none for an empty credential.
unfoldable pub save_credential : Text → Option Text
save_credential secret = if is_nil secret then none else some (secret ++ codes "\n")
