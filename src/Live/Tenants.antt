-- ===== src/Live/Tenants.antt =====
-- The tenant of an event owns what the event is about.
use run_mesh.Base.{
  ℕ, String, Bool, true, ◌&&◌, Option, none, some, List, [], ◌∷◌, ◌≡◌, ◌⊎◌, refl, sym, ap, ◌∙◌,
  Bool-cases, Option-cases, inl, inr, ◌==◌, ==_iff, arith,
}
use run_mesh.Base.Tables.{find?, exists}
use run_mesh.Store.Db.{Db, Event}
use run_mesh.Live.Notify.{
  tenant_of_event, tenant_of_run, tenant_of_task, tenant_of_definition, coalesce, if_type,
}

-- A workflow run, a task or a definition of the tenant.
abbrev IsRunOf : Db → ℕ → ℕ → Type 0
IsRunOf db tenant id = exists (λ r. r.id == id && r.tenant_id == tenant) db.runs ≡ true

abbrev IsTaskOf : Db → ℕ → ℕ → Type 0
IsTaskOf db tenant id =
    (run : ℕ) × (exists (λ t. t.id == id && t.workflow_run_id == run) db.tasks ≡ true)
    × IsRunOf db tenant run

abbrev IsDefinitionOf : Db → ℕ → ℕ → Type 0
IsDefinitionOf db tenant id =
    exists (λ d. d.id == id && d.tenant_id == tenant) db.definitions ≡ true

abbrev pub Belongs : Db → ℕ → ℕ → Type 0
Belongs db tenant id = IsRunOf db tenant id ⊎ (IsTaskOf db tenant id ⊎ IsDefinitionOf db tenant id)

-- What SELECT finds exists, also under a stricter WHERE that it satisfies.
find?-exists :
    {A : Type 0} (p q : A → Bool) (xs : List A) (a : A)
    → find? p xs ≡ some a
    → q a ≡ true
    → exists (λ x. p x && q x) xs ≡ true
unfolding find? exists
find?-exists p q [] a h good = absurd (cc)
find?-exists p q (x ∷ xs) a h good = elim (Bool-cases (p x)) [
  | inl hit ↦
      let same : x ≡ a = ground arith in
      let good' : q x ≡ true = ap q same ∙ good in rw (hit, good') refl
  | inr miss ↦ let rest = find?-exists p q xs a (ground arith) good in rw (miss, rest) refl
]

coalesce-some : (x y : Option ℕ) (t : ℕ) → coalesce x y ≡ some t → (x ≡ some t) ⊎ (y ≡ some t)
coalesce-some none y t h = inr h
coalesce-some (some x) y t h = inl h

if_type-some :
    (e : Event) (type : String) (found : Option ℕ) (t : ℕ)
    → if_type e type found ≡ some t
    → found ≡ some t
if_type-some e type found t h = ground arith

module _ (db : Db) (tenant : ℕ) where
  tenant_of_run-some :
      (id : ℕ)
      → tenant_of_run (find? (λ r. r.id == id) db.runs) ≡ some tenant
      → IsRunOf db tenant id
  tenant_of_run-some id h = elim (Option-cases (find? (λ r. r.id == id) db.runs)) [
    | inl none_found ↦
        let same : tenant_of_run none ≡ some tenant = ap tenant_of_run (sym none_found) ∙ h in
        absurd (cc)
    | inr (r, found) ↦
        let same : some r.tenant_id ≡ some tenant = ap tenant_of_run (sym found) ∙ h in
        find?-exists (λ r. r.id == id) (λ r. r.tenant_id == tenant) db.runs r found
          ((==_iff r.tenant_id tenant).1 (cc))
  ]

  tenant_of_task-some :
      (id : ℕ)
      → tenant_of_task db.runs (find? (λ t. t.id == id) db.tasks) ≡ some tenant
      → IsTaskOf db tenant id
  tenant_of_task-some id h = elim (Option-cases (find? (λ t. t.id == id) db.tasks)) [
    | inl none_found ↦
        let same : tenant_of_task db.runs none ≡ some tenant =
          ap (tenant_of_task db.runs) (sym none_found) ∙ h in
        absurd (cc)
    | inr (t, found) ↦ (
      t.workflow_run_id,
      find?-exists (λ t. t.id == id) (λ x. x.workflow_run_id == t.workflow_run_id) db.tasks t found
          ((==_iff t.workflow_run_id t.workflow_run_id).1 refl),
      tenant_of_run-some t.workflow_run_id (ap (tenant_of_task db.runs) (sym found) ∙ h),
    )
  ]

  tenant_of_definition-some :
      (id : ℕ)
      → tenant_of_definition (find? (λ d. d.id == id) db.definitions) ≡ some tenant
      → IsDefinitionOf db tenant id
  tenant_of_definition-some id h = elim (Option-cases (find? (λ d. d.id == id) db.definitions)) [
    | inl none_found ↦
        let same : tenant_of_definition none ≡ some tenant =
          ap tenant_of_definition (sym none_found) ∙ h in
        absurd (cc)
    | inr (d, found) ↦
        let same : some d.tenant_id ≡ some tenant = ap tenant_of_definition (sym found) ∙ h in
        find?-exists (λ d. d.id == id) (λ d. d.tenant_id == tenant) db.definitions d found
          ((==_iff d.tenant_id tenant).1 (cc))
  ]

  pub tenant_of_event-Belongs :
      (e : Event) → tenant_of_event db e ≡ some tenant → Belongs db tenant e.aggregate_id
  unfolding tenant_of_event
  tenant_of_event-Belongs e h = elim (coalesce-some _ _ tenant h) [
    | inl of_run ↦
        inl (tenant_of_run-some e.aggregate_id (if_type-some e "workflow_run" _ tenant of_run))
    | inr rest ↦ elim (coalesce-some _ _ tenant rest) [
      | inl of_task ↦
          inr
            (inl (tenant_of_task-some e.aggregate_id (if_type-some e "task_run" _ tenant of_task)))
      | inr of_definition ↦ inr (
          inr (
            tenant_of_definition-some e.aggregate_id
              (if_type-some e "workflow_definition" _ tenant of_definition)))
    ]
  ]
