-- ===== src/Artifact/Manager.antt =====
-- `Manager` of internal/artifact/manager.go. The object store and the presigner are arguments; the
-- traces are left out.
use Prim.Native.Char.{Char, code}
use Prim.Native.String.{◌++◌ as str_append}
use run_mesh.Base.{
  ℕ, suc, ◌+◌, String, Bool, true, ◌&&◌, ◌||◌, not, Option, none, some, List, [], ◌∷◌, str_eq, ◌==◌,
  leb, if◌then◌else◌, Error, conflict, other, Result, ok, err, ◌>>=◌, ◌>>◌, refuse_if, or_fail,
}
use run_mesh.Base.Strings.{trim}
use run_mesh.Base.Int.{ℤ, pos, is_negative, exceeds, to_ℕ}
use run_mesh.Base.Tables.{take, length}
use run_mesh.Workflow.Dag.{codes}
use run_mesh.Store.Db.{Db, Env, Artifact}
use run_mesh.Store.CreateRun.{is_uploaded}
use run_mesh.Store.Errors.{starts_with}
use run_mesh.Store.DeadLetter.{task_belongs_to_tenant}
use run_mesh.Store.Artifacts.{create_artifact, get_artifact, get_artifact_by_uri, complete_artifact}
use run_mesh.Auth.Text.{Text}

-- What the manager calls: HEAD and GET of an object, whose body may fail while it is read, the
-- presigner, for the network of the workers or not, the text of a UUID and
-- its converse, and SHA-256 in hexadecimal.
pub record Objects : Type 0 where
  pub head : String → Result (Option ℤ)
  pub get : String → Result (Result Text)
  pub presign_put : Bool → String → String → Result (String × List (String × String))
  pub presign_get : Bool → String → Result String
  pub show_uuid : ℕ → String
  pub uuid_of : String → Option ℕ
  pub sha256_hex : Text → String
  pub bucket : String
  pub expiry : ℕ

-- 100 MiB and 10 MiB
abbrev pub max_artifact_bytes : ℕ
max_artifact_bytes = 104857600

abbrev pub max_log_bytes : ℕ
max_log_bytes = 10485760

pub record Upload : Type 0 where
  pub artifact : Artifact
  pub url : String
  pub headers : List (String × String)
  pub expires_at : ℕ

pub record Download : Type 0 where
  pub artifact : Artifact
  pub url : String
  pub expires_at : ℕ

-- `strings.ToLower`, as far as it is read: a text with another character than a hexadecimal digit is
-- refused.
abbrev lower_char : Char → Char
lower_char c =
    if code c == b'A'
    then "a"
    else if code c == b'B'
    then "b"
    else if code c == b'C'
    then "c"
    else if code c == b'D'
    then "d"
    else if code c == b'E'
    then "e"
    else if code c == b'F'
    then "f"
    else c

unfoldable pub to_lower : String → String
to_lower String.[] = String.[]
to_lower (String.◌∷◌ c s) = String.◌∷◌ (lower_char c) (to_lower s)

abbrev is_hex : ℕ → Bool
is_hex c = leb b'0' c && leb c b'9' || (leb b'a' c && leb c b'f' || leb b'A' c && leb c b'F')

unfoldable pub all_hex : Text → Bool
all_hex [] = true
all_hex (c ∷ s) = is_hex c && all_hex s

-- `hex.DecodeString` gives 32 bytes.
unfoldable pub is_digest : String → Bool
unfolding all_hex
is_digest s = all_hex (codes s) && length (codes s) == 64

abbrev pub limit_of : String → ℕ
limit_of kind = if str_eq kind "log" then max_log_bytes else max_artifact_bytes

abbrev is_kind : String → Bool
is_kind kind = str_eq kind "input" || (str_eq kind "output" || str_eq kind "log")

abbrev task_of_tenant : Db → ℕ → Option ℕ → Result (Unit {0})
task_of_tenant db tenant none = ok tt
task_of_tenant db tenant (some task) = task_belongs_to_tenant db task tenant

-- The checks before the row is inserted, which give the checksum as it is stored.
unfoldable pub check_upload : ℕ → String → ℤ → String → Option ℕ → Db → Result String
unfolding trim to_lower is_digest
check_upload tenant kind size given task db = do
  refuse_if (not (is_kind kind)) (other "invalid artifact kind")
  refuse_if (is_negative size || exceeds size (limit_of kind)) (
      other (
        if str_eq kind "log"
        then "artifact size exceeds 10485760 bytes"
        else "artifact size exceeds 104857600 bytes"))
  let checksum = to_lower (trim given)
  refuse_if (not (str_eq checksum "") && not (is_digest checksum))
      (other "checksum_sha256 must be 64 hexadecimal characters")
  task_of_tenant db tenant task
  ok checksum

abbrev pub key_of : Objects → ℕ → String → ℕ → String
key_of objects tenant kind id =
    str_append (objects.show_uuid tenant)
      (str_append "/" (str_append kind (str_append "/" (objects.show_uuid id))))

abbrev pub uri_of : Objects → String → String
uri_of objects key = str_append "s3://" (str_append objects.bucket (str_append "/" key))

abbrev or_octets : String → String
or_octets content_type = if str_eq content_type "" then "application/octet-stream" else content_type

-- The row that the checks let in, with the database that has it.
unfoldable pub insert_upload :
    Objects → Env → ℕ → String → String → ℤ → String → Option ℕ → Db → Result (Artifact × Db)
unfolding check_upload
insert_upload objects env tenant kind content_type size given task db = do
  checksum ← check_upload tenant kind size given task db
  let id = env.new_uuid db.drawn
  let key = key_of objects tenant kind id
  create_artifact env id tenant kind key (uri_of objects key) (or_octets content_type) size checksum
      task (record db { drawn = suc db.drawn })

abbrev wrap : String → Error → Error
wrap prefix (other message) = other (str_append prefix message)
wrap prefix sentinel = sentinel

unfoldable pub or_wrap {ℓ} : {A : Type ℓ} → String → Result A → Result A
or_wrap prefix (ok a) = ok a
or_wrap prefix (err e) = err (wrap prefix e)

unfoldable pub sign_upload : Objects → Env → Bool → Artifact → Result Upload
unfolding or_wrap
sign_upload objects env inside a = do
  signed ← or_wrap "sign artifact upload: " (objects.presign_put inside a.object_key a.content_type)
  let (url, headers) = signed
  ok (record {
    artifact = a;
    url = url;
    headers = headers;
    expires_at = env.clock + objects.expiry;
  })

-- `createUpload`. The row stays if the presigner fails.
unfoldable pub create_upload :
    Objects → Env → Bool → ℕ → String → String → ℤ → String → Option ℕ → Db → Result Upload × Db
unfolding insert_upload sign_upload
create_upload objects env inside tenant kind content_type size given task db =
    elim (insert_upload objects env tenant kind content_type size given task db) [
      | err e ↦ (err e, db)
      | ok (a, db') ↦ (sign_upload objects env inside a, db')
    ]

-- `Checksum` of what a limited reader gives.
unfoldable pub checksum_of : Objects → ℕ → Result Text → Result String
checksum_of objects limit body = do bytes ← body; ok (objects.sha256_hex (take limit bytes))

unfoldable pub verify_checksum : Objects → Artifact → Result (Unit {0})
unfolding or_wrap checksum_of
verify_checksum objects a = do
  body ← or_wrap "verify artifact checksum: " (objects.get a.object_key)
  actual ← or_wrap "verify artifact checksum: " (checksum_of objects (suc a.declared_size) body)
  refuse_if (not (str_eq actual a.checksum_sha256)) conflict

-- `head.ContentLength == nil || *head.ContentLength != a.DeclaredSize`
abbrev pub is_other_size : Option ℤ → ℕ → Bool
is_other_size none declared = true
is_other_size (some length) declared = is_negative length || not (to_ℕ length == declared)

abbrev pub length_of : Option ℤ → ℤ
length_of none = pos 0
length_of (some length) = length

unfoldable pub inspect : Objects → Artifact → Result ℤ
unfolding or_wrap verify_checksum
inspect objects a = do
  length ← or_wrap "inspect uploaded artifact: " (objects.head a.object_key)
  refuse_if (is_other_size length a.declared_size) conflict
  if str_eq a.checksum_sha256 ""
      then ok (length_of length)
      else (do verify_checksum objects a; ok (length_of length))

-- `Complete`
unfoldable pub complete : Objects → Env → ℕ → ℕ → Db → Result (Artifact × Db)
unfolding inspect
complete objects env tenant id db = do
  a ← get_artifact tenant id db
  if is_uploaded a.status
      then ok (a, db)
      else (do length ← inspect objects a; complete_artifact env tenant id length db)

-- An artifact by its URI, or by its id.
unfoldable pub find_named : Objects → ℕ → String → Db → Result Artifact
unfolding starts_with
find_named objects tenant name db =
    if starts_with (codes "s3://") (codes name) then get_artifact_by_uri tenant name db else do
      id ← or_fail (objects.uuid_of name) (other "invalid input syntax for type uuid")
      get_artifact tenant id db

-- `download`
unfoldable pub download : Objects → Env → Bool → ℕ → String → Db → Result Download
unfolding find_named or_wrap
download objects env inside tenant name db = do
  a ← find_named objects tenant name db
  refuse_if (not (is_uploaded a.status)) conflict
  url ← or_wrap "sign artifact download: " (objects.presign_get inside a.object_key)
  ok (record { artifact = a; url = url; expires_at = env.clock + objects.expiry })
