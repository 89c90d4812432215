-- ===== src/Scheduler/Drain/Rows.antt =====
-- The ids of events stay unique.
use run_mesh.Base.{
  ℕ, zero, suc, Bool, ◌≡◌, ◌≢◌, refl, List, [], ◌∷◌, arith, Bool-cases, inl, inr, if◌then◌else◌,
}
use run_mesh.Base.Tables.{All, select, update_where, order_by, insert_by, take}
use run_mesh.Store.Db.{Env, Event}
use run_mesh.Scheduler.Outbox.{can_acknowledge, acknowledge, publish_row}
use run_mesh.Scheduler.Order.{All-select, All-insert_by, All-order_by, All-take, All-imp₁}
use run_mesh.Scheduler.Drain.Acks.{Distinct, ack_all}

pub Distinct-select : (p : Event → Bool) (xs : List Event) → Distinct xs → Distinct (select p xs)
unfolding select
Distinct-select p [] d = tt
Distinct-select p (x ∷ xs) d = elim (Bool-cases (p x)) [
  | inl hit ↦ rw hit (
    All-imp₁ (select p xs) (λ y h. h.1) (All-select (λ c. c.id ≢ x.id) p xs d.0),
    Distinct-select p xs d.1,
  )
  | inr miss ↦ rw miss (Distinct-select p xs d.1)
]

Distinct-insert_by :
    (b : Event → Event → Bool) (x : Event) (xs : List Event)
    → All (λ c. c.id ≢ x.id) xs
    → Distinct xs
    → Distinct (insert_by b x xs)
unfolding insert_by
Distinct-insert_by b x [] ne d = (tt, tt)
Distinct-insert_by b x (y ∷ ys) ne d = elim (Bool-cases (b x y)) [
  | inl hit ↦ rw hit (ne, d)
  | inr miss ↦ rw miss (
    All-insert_by (λ c. c.id ≢ y.id) b x ys (λ e. let other = ne.0 in absurd (omega arith)) d.0,
    Distinct-insert_by b x ys ne.1 d.1,
  )
]

pub Distinct-order_by :
    (b : Event → Event → Bool) (xs : List Event) → Distinct xs → Distinct (order_by b xs)
unfolding order_by
Distinct-order_by b [] d = tt
Distinct-order_by b (x ∷ xs) d =
    Distinct-insert_by b x (order_by b xs) (All-order_by (λ c. c.id ≢ x.id) b xs d.0)
      (Distinct-order_by b xs d.1)

pub Distinct-take : (n : ℕ) (xs : List Event) → Distinct xs → Distinct (take n xs)
Distinct-take zero xs d = tt
Distinct-take (suc n) [] d = tt
Distinct-take (suc n) (x ∷ xs) d = (All-take (λ c. c.id ≢ x.id) n xs d.0, Distinct-take n xs d.1)

-- An update that keeps the ids.
pub Distinct-update :
    (p : Event → Bool) (f : Event → Event) (xs : List Event)
    → ((x : Event) → (f x).id ≡ x.id)
    → Distinct xs
    → Distinct (update_where p f xs)
unfolding update_where
Distinct-update p f [] same d = tt
Distinct-update p f (x ∷ xs) same d = (apart xs d.0, Distinct-update p f xs same d.1)
  where
    kept : (y : Event) → (if p y then f y else y).id ≡ y.id
    kept y = elim (Bool-cases (p y)) [ inl hit ↦ rw hit (same y) | inr miss ↦ rw miss refl ]

    apart :
        (ys : List Event)
        → All (λ c. c.id ≢ x.id) ys
        → All (λ c. c.id ≢ (if p x then f x else x).id) (update_where p f ys)
    apart [] h = tt
    apart (y ∷ ys) h = (
      (λ e. let a = kept y in let b = kept x in let ne = h.0 in absurd (ne (omega arith))),
      apart ys h.1,
    )

module _ (env : Env) (token : ℕ) where
  pub Distinct-ack_all : (es xs : List Event) → Distinct xs → Distinct (ack_all env token es xs)
  unfolding ack_all acknowledge
  Distinct-ack_all [] xs d = d
  Distinct-ack_all (e ∷ es) xs d =
      Distinct-ack_all es (acknowledge env token e.id xs)
        (Distinct-update (can_acknowledge token e.id) (publish_row env) xs (λ x. refl) d)
