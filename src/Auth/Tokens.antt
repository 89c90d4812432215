-- ===== src/Auth/Tokens.antt =====
-- API keys of internal/auth/auth.go: `GenerateAPIKeyForID`, `APIKeyID`, `HashAPIKey` and `bearer`.
use run_mesh.Base.{
  ℕ, String, Bool, ◌&&◌, not, Option, none, some, [], ◌∷◌, ◌++◌, Result, ok, other, ◌>>=◌, ◌>>◌,
  refuse_if, or_fail, if◌then◌else◌,
}
use run_mesh.Workflow.Dag.{codes}
use run_mesh.Auth.Text.{Text, is_empty, text_eq, after_prefix, trim_space, split_n}

-- What the program takes from other packages: whether `uuid.Parse` accepts a text, the UUID that the
-- database reads from one, `uuid.NewString` of a UUID, the base64 encoding and SHA-256, whose digests
-- are only stored and compared.
pub record Platform : Type 0 where
  pub is_uuid : Text → Bool
  pub uuid_of : Text → Option ℕ
  pub show_uuid : ℕ → Text
  pub encode : Text → Text
  pub sha256 : Text → String

abbrev pub underscore : ℕ
underscore = b'_'

unfoldable pub hash_api_key : Platform → Text → Text → String
hash_api_key platform token pepper = platform.sha256 (pepper ++ 0 ∷ token)

-- "rm_" + id + "_" + the encoded secret
unfoldable pub token_of : Platform → Text → Text → Text
token_of platform id secret = codes "rm_" ++ (id ++ underscore ∷ platform.encode secret)

-- The secret is what `rand.Read` returns, if it does.
unfoldable pub generate_api_key_for_id :
    Platform → Option Text → Text → Text → Result (Text × String)
unfolding token_of hash_api_key
generate_api_key_for_id platform random id pepper = do
  refuse_if (not (platform.is_uuid id)) (other "invalid UUID")
  secret ← or_fail random (other "rand")
  ok (token_of platform id secret, hash_api_key platform (token_of platform id secret) pepper)

-- `id` is the new UUID.
unfoldable pub generate_api_key :
    Platform → Option Text → ℕ → Text → Result (Text × (Text × String))
unfolding generate_api_key_for_id
generate_api_key platform random id pepper = do
  made ← generate_api_key_for_id platform random (platform.show_uuid id) pepper
  ok (platform.show_uuid id, made)

unfoldable pub api_key_id : Platform → Text → Option Text
unfolding text_eq
api_key_id platform token = elim (split_n underscore 3 token) [
  | first ∷ second ∷ third ∷ [] ↦
      if text_eq first (codes "rm") && (platform.is_uuid second && not (is_empty third))
      then some second
      else none
  | _ ↦ none
]

-- The token of an Authorization header, empty if it has another scheme.
unfoldable pub bearer : Text → Text
unfolding after_prefix trim_space
bearer header = elim (after_prefix (codes "Bearer ") header) [
  | none ↦ []
  | some rest ↦ trim_space rest
]
