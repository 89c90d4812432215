-- ===== src/Scheduler/Drain/Round.antt =====
-- A claimed batch: its events can be acknowledged one after another.
use run_mesh.Base.{
  ℕ, Bool, true, ◌&&◌, ◌≡◌, ◌≢◌, refl, List, [], ◌∷◌, map, ◌==◌, ==_iff, ==_refl, arith, Bool-cases,
  inl, inr,
}
use run_mesh.Base.Tables.{All, select, exists, update_where}
use run_mesh.Store.Db.{Env, Event}
use run_mesh.Store.Reads.{event_before}
use run_mesh.Scheduler.Outbox.{
  is_unpublished, is_candidate, candidates, is_among, claim_row, claim_events, can_acknowledge,
}
use run_mesh.Scheduler.Order.{All-select, All-order_by, All-take, All-imp₁}
use run_mesh.Scheduler.Drain.Acks.{backlog, Distinct, CanAcknowledge}
use run_mesh.Scheduler.Drain.Rows.{
  Distinct-select, Distinct-order_by, Distinct-take, Distinct-update,
}

-- Every row of a list is found in it.
exists_self : (xs : List Event) → All (λ c. (p : Event → Bool) → p c ≡ true → exists p xs ≡ true) xs
unfolding exists
exists_self [] = tt
exists_self (x ∷ xs) = (
  (λ p h. rw h refl),
  All-imp₁ xs (λ c found p h. let later = found p h in ground arith) (exists_self xs),
)

module _ (env : Env) (locked : ℕ → Bool) (batch : ℕ) (outbox : List Event) where
  pub Distinct-candidates : Distinct outbox → Distinct (candidates env locked batch outbox)
  unfolding candidates
  Distinct-candidates d =
      Distinct-take batch _ (
        Distinct-order_by event_before _
          (Distinct-select (is_candidate env locked outbox) outbox d))

  -- A candidate is a row that waits.
  waiting_row :
      All
        (λ c. exists (λ o. o.id == c.id && is_unpublished o) outbox ≡ true)
        (candidates env locked batch outbox)
  unfolding candidates
  waiting_row = All-take _ batch _ (
      All-order_by _ event_before _ (
        All-imp₁ (select (is_candidate env locked outbox) outbox)
          (λ c h.
            h.1 (λ o. o.id == c.id && is_unpublished o)
              (let hit = h.0 in let same = ==_refl c.id in ground arith))
          (All-select _ (is_candidate env locked outbox) outbox (exists_self outbox))))

module _ (env : Env) (token ttl : ℕ) (cs : List Event) where
  claimed_row :
      (id : ℕ) (outbox : List Event)
      → ((o : Event) → o.id ≡ id → is_among cs o ≡ true)
      → exists (λ o. o.id == id && is_unpublished o) outbox ≡ true
      → exists
          (can_acknowledge token id)
          (update_where (is_among cs) (claim_row env token ttl) outbox)
        ≡ true
  unfolding exists update_where
  claimed_row id [] among h = absurd (cc)
  claimed_row id (o ∷ outbox) among h = elim (Bool-cases (o.id == id && is_unpublished o)) [
    | inl hit ↦
        let same : o.id ≡ id = ground arith in
        let waits : is_unpublished o ≡ true = ground arith in
        rw (among o same) (let t = ==_refl token in let i = (==_iff o.id id).1 same in ground arith)
    | inr miss ↦ let later = claimed_row id outbox among (ground arith) in ground arith
  ]

-- A row of a batch is in the batch.
among_self : (cs : List Event) → All (λ c. (o : Event) → o.id ≡ c.id → is_among cs o ≡ true) cs
among_self cs =
    All-imp₁ cs (λ c found o same. found (λ d. d.id == o.id) (ground arith)) (exists_self cs)

module _ (env : Env) (token ttl : ℕ) where
  abbrev pub claimed : List Event → List Event
  claimed = map (claim_row env token ttl)

  pub Distinct-claimed : (cs : List Event) → Distinct cs → Distinct (claimed cs)
  Distinct-claimed [] d = tt
  Distinct-claimed (c ∷ cs) d = (apart cs d.0, Distinct-claimed cs d.1)
    where
      apart : (xs : List Event) → All (λ x. x.id ≢ c.id) xs → All (λ x. x.id ≢ c.id) (claimed xs)
      apart [] h = tt
      apart (x ∷ xs) h = (h.0, apart xs h.1)

  module _ (locked : ℕ → Bool) (batch : ℕ) (outbox : List Event) where
    abbrev cs : List Event
    cs = candidates env locked batch outbox

    -- Every claimed event can be acknowledged.
    pub CanAcknowledge-claimed :
        All (CanAcknowledge env token (claim_events env locked batch token ttl outbox)) (claimed cs)
    unfolding claim_events
    CanAcknowledge-claimed = of_rows cs (among_self cs) (waiting_row env locked batch outbox)
      where
        of_rows :
            (xs : List Event)
            → All (λ c. (o : Event) → o.id ≡ c.id → is_among cs o ≡ true) xs
            → All (λ c. exists (λ o. o.id == c.id && is_unpublished o) outbox ≡ true) xs
            → All
                (CanAcknowledge env token
                  (update_where (is_among cs) (claim_row env token ttl) outbox))
                (claimed xs)
        of_rows [] a h = tt
        of_rows (x ∷ xs) a h =
            (claimed_row env token ttl cs x.id outbox a.0 h.0, of_rows xs a.1 h.1)

    pub Distinct-claim_events :
        Distinct outbox → Distinct (claim_events env locked batch token ttl outbox)
    unfolding claim_events
    Distinct-claim_events d = Distinct-update _ _ outbox (λ x. refl) d

    pub backlog-claim_events :
        backlog (claim_events env locked batch token ttl outbox) ≡ backlog outbox
    unfolding claim_events update_where backlog
    backlog-claim_events = same outbox
      where
        same :
            (xs : List Event)
            → backlog (update_where (is_among cs) (claim_row env token ttl) xs) ≡ backlog xs
        same [] = refl
        same (x ∷ xs) = ground (arith, same xs)
