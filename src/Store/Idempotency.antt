-- ===== src/Store/Idempotency.antt =====
-- `CreateRun` under a repeated idempotency key.
use run_mesh.Base.{
  ℕ, String, Bool, true, false, not, ◌&&◌, ◌≡◌, refl, sym, Option, none, some, List, [], ◌∷◌, ◌++◌,
  arith, ◌==◌, ==_refl, str_eq, eq_iff, Bool-cases, inl, inr, ||_false, Result, ok, Holds,
  Holds-bind, Holds-ok, refuse_if, refuse_if-eq-ok, or_fail, or_fail-eq-ok, ◌>>=◌, >>=-eq-ok,
  conflict, not_found,
}
use run_mesh.Base.Tables.{find?, exists, update_where}
use run_mesh.Store.Db.{Db, Env, Definition, Run, Artifact, insert_event, insert_audit}
use run_mesh.Store.CreateRun.{
  create_run, insert_run, input_uri, is_input, attach_input, is_free, has_key, owned_definition,
  get_run_tx, new_run,
}

module _ {A : Type 0} where
  find?-exists : (p : A → Bool) (xs : List A) (a : A) → find? p xs ≡ some a → exists p xs ≡ true
  unfolding find? exists
  find?-exists p [] a h = absurd (cc)
  find?-exists p (x ∷ xs) a h = elim (Bool-cases (p x)) [
    | inl hit ↦ rw hit refl
    | inr miss ↦ rw miss (find?-exists p xs a (ground arith))
  ]

  find?-append :
      (p : A → Bool) (xs : List A) (a : A)
      → exists p xs ≡ false
      → p a ≡ true
      → find? p (xs ++ a ∷ []) ≡ some a
  unfolding find? exists
  find?-append p [] a none_fits hit = rw hit refl
  find?-append p (x ∷ xs) a none_fits hit =
      let (here, rest) = ||_false (p x) _ none_fits in rw here (find?-append p xs a rest hit)

  -- An update that keeps what a test sees keeps that some row passes it.
  find?-update :
      (p q : A → Bool) (f : A → A) (xs : List A) (a : A)
      → ((x : A) → p (f x) ≡ p x)
      → find? p xs ≡ some a
      → (b : A) × (find? p (update_where q f xs) ≡ some b)
  unfolding find? update_where
  find?-update p q f [] a same h = absurd (cc)
  find?-update p q f (x ∷ xs) a same h = elim (Bool-cases (q x)) [
    | inl picked ↦ elim (Bool-cases (p x)) [
      | inl hit ↦ (f x, rw (picked, same x, hit) refl)
      | inr miss ↦
          let (b, rest) = find?-update p q f xs a same (ground arith) in
          (b, rw (picked, same x, miss) rest)
    ]
    | inr left ↦ elim (Bool-cases (p x)) [
      | inl hit ↦ (x, rw (left, hit) refl)
      | inr miss ↦
          let (b, rest) = find?-update p q f xs a same (ground arith) in (b, rw (left, miss) rest)
    ]
  ]

-- What a call of `CreateRun` that returns leaves for the next one with the same key.
pub record CreateEffect (tenant definition : ℕ) (key : String) (artifact : Option ℕ)
    (r : (Run × Bool) × Db) : Type 0 where
  pub named : str_eq key "" ≡ false
  pub input : (uri : Option String) × (input_uri r.1 tenant artifact ≡ ok uri)
  pub defined :
      (d : Definition) × (find? (owned_definition tenant definition) r.1.definitions ≡ some d)
  pub stored : find? (has_key tenant key) r.1.runs ≡ some r.0.0

attached :
    (tenant run : ℕ) (artifact : Option ℕ) (uri : Option String) (db db' : Db)
    → input_uri db tenant artifact ≡ ok uri
    → attach_input artifact run db.artifacts ≡ ok db'.artifacts
    → (uri' : Option String) × (input_uri db' tenant artifact ≡ ok uri')
unfolding input_uri attach_input
attached tenant run none uri db db' h e = (none, refl)
attached tenant run (some id) uri db db' h e =
    let (_, _, ends) =
      >>=-eq-ok (refuse_if (not (exists (is_free id) db.artifacts)) conflict) _ e in
    let rows : db'.artifacts
        ≡ update_where (is_free id) (λ a. record a { workflow_run_id = some run }) db.artifacts =
      sym (ok-injective ends) in
    let (a, first, _) =
      >>=-eq-ok (or_fail (find? (is_input id tenant) db.artifacts) not_found) _ h in
    let (b, found) =
      find?-update (is_input id tenant) (is_free id) (λ a. record a { workflow_run_id = some run })
        db.artifacts a (λ x. refl) (or_fail-eq-ok _ _ first) in
    (some b.object_uri, unfold or_fail ◌>>=◌ in rw (rows, found) refl)
  where
    ok-injective : {x y : List Artifact} → Path (Result (List Artifact)) (ok x) (ok y) → x ≡ y
    ok-injective h = cc

insert_run-effect :
    (env : Env) (tenant : ℕ) (user : Option ℕ) (d : Definition) (key input : String)
    (artifact : Option ℕ) (uri : Option String) (definition : ℕ) (db : Db)
    → str_eq key "" ≡ false
    → input_uri db tenant artifact ≡ ok uri
    → find? (owned_definition tenant definition) db.definitions ≡ some d
    → exists (has_key tenant key) db.runs ≡ false
    → Holds
        (CreateEffect tenant definition key artifact)
        (insert_run env tenant user d key input artifact uri db)
unfolding insert_run insert_event insert_audit input_uri
insert_run-effect env tenant user d key input artifact uri definition db named given found fresh =
    Holds-bind _ _ _ λ artifacts attaches. Holds-bind _ _ _ λ tasks _. Holds-bind _ _ _ λ deps _.
      Holds-ok _ (record {
        named = named;
        input =
            attached tenant (env.new_uuid db.drawn) artifact uri db
              (record db { artifacts = artifacts }) given attaches;
        defined = (d, found);
        stored =
            find?-append (has_key tenant key) db.runs
              (new_run env db tenant d.id d.version input uri key) fresh has_its_key;
      })
  where
    has_its_key : (tenant == tenant && str_eq key key) ≡ true
    has_its_key = rw (==_refl tenant, (eq_iff key key).1 refl) refl

pub create_run-effect :
    (env : Env) (tenant : ℕ) (user : Option ℕ) (definition : ℕ) (key given : String)
    (artifact : Option ℕ) (db : Db)
    → Holds
        (CreateEffect tenant definition key artifact)
        (create_run env tenant user definition key given artifact db)
unfolding create_run
create_run-effect env tenant user definition key given artifact db = Holds-bind _ _ _ λ _ named.
    Holds-bind _ _ _ λ uri input. Holds-bind _ _ _ λ d found.
      let named' = refuse_if-eq-ok _ _ named in
      elim (Bool-cases (exists (has_key tenant key) db.runs)) [
        | inl again ↦ rw again (existing named' uri input d (or_fail-eq-ok _ _ found))
        | inr fresh ↦ rw fresh (
            insert_run-effect env tenant user d key _ artifact uri definition db named' input
              (or_fail-eq-ok _ _ found) fresh)
      ]
  where
    existing :
        str_eq key "" ≡ false
        → (uri : Option String) → input_uri db tenant artifact ≡ ok uri
        → (d : Definition) → find? (owned_definition tenant definition) db.definitions ≡ some d
        → Holds
            (CreateEffect tenant definition key artifact)
            (get_run_tx db tenant key >>= λ run. ok ((run, false), db))
    existing named uri input d found =
        unfold get_run_tx in
        Holds-bind _ _ _ λ run stored. Holds-ok _ (record {
          named = named;
          input = (uri, input);
          defined = (d, found);
          stored = or_fail-eq-ok _ _ stored;
        })

-- A call of CreateRun that is repeated with the same tenant, workflow, idempotency key and input artifact
-- returns the run of the first call, says that it has not created it, and changes nothing, whatever
-- input, user and time come with it.
pub create_run-idempotent :
    (env env' : Env) (tenant : ℕ) (user user' : Option ℕ) (definition : ℕ)
    (key given given' : String) (artifact : Option ℕ) (run : Run) (created : Bool) (db db' : Db)
    → create_run env tenant user definition key given artifact db ≡ ok ((run, created), db')
    → create_run env' tenant user' definition key given' artifact db' ≡ ok ((run, false), db')
create_run-idempotent env env' tenant user user' definition key given given' artifact run created db
      db' h =
    let e =
      (create_run-effect env tenant user definition key given artifact db).at ((run, created), db')
        h in
    unfold create_run get_run_tx ◌>>=◌ refuse_if or_fail in
    rw
      (
        e.named,
        e.input.1,
        e.defined.1,
        find?-exists (has_key tenant key) db'.runs run e.stored,
        e.stored,
      )
      refl
