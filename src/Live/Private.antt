-- ===== src/Live/Private.antt =====
-- What Redis holds of a tenant, and what `Publish` adds to it.
use run_mesh.Base.{
  ℕ, Option, none, some, [], ◌∷◌, ◌++◌, ◌≡◌, ◌≢◌, ◌⊎◌, refl, sym, ap, subst, Error, Result, ok, err,
  Bool-cases, inl, inr, ◌==◌, arith,
}
use run_mesh.Base.Tables.{All, All-append}
use run_mesh.Auth.Text.{Text}
use run_mesh.Live.Broker.{Notice, Broker, channel_prefix, channel_of, publish}

-- Redis delivers a message at most once, and on its channel only; UUIDs are told apart by their texts.
pub record Laws {W : Type 0} (b : Broker W) : Type 0 where
  pub other_channel :
      (c d m : Text) (w : W)
      → c ≢ d
      → b.redis.delivered d (b.redis.publish c m w).1 ≡ b.redis.delivered d w
  pub own_channel :
      (c m : Text) (w : W)
      → (b.redis.delivered c (b.redis.publish c m w).1 ≡ b.redis.delivered c w)
        ⊎ (b.redis.delivered c (b.redis.publish c m w).1 ≡ b.redis.delivered c w ++ m ∷ [])
  pub injective : (i j : ℕ) → b.show_id i ≡ b.show_id j → i ≡ j

tail_of : Text → Text
tail_of [] = []
tail_of (c ∷ s) = s

append-cancel : (p s t : Text) → p ++ s ≡ p ++ t → s ≡ t
append-cancel [] s t h = h
append-cancel (c ∷ p) s t h = append-cancel p s t (unfold tail_of in ap tail_of h)

pub Result-cases :
    {A : Type 0} (r : Result A) → ((e : Error) × (r ≡ err e)) ⊎ ((a : A) × (r ≡ ok a))
Result-cases (err e) = inl (e, refl)
Result-cases (ok a) = inr (a, refl)

module _ {W : Type 0} (b : Broker W) (P : ℕ → Notice → Type 0) where
  -- A text is a notice that a tenant may see.
  abbrev pub IsNoticeFor : ℕ → Text → Type 0
  IsNoticeFor tenant m = (n : Notice) × (b.marshal n ≡ ok m) × P tenant n

  -- Every channel has been sent what its tenant may see.
  abbrev pub IsPrivate : W → Type 0
  IsPrivate w = (tenant : ℕ) → All (IsNoticeFor tenant) (b.redis.delivered (channel_of b tenant) w)

module _ {W : Type 0} (b : Broker W) (laws : Laws b) (P : ℕ → Notice → Type 0) where
  channel_of-injective : (i j : ℕ) → channel_of b i ≡ channel_of b j → i ≡ j
  unfolding channel_of
  channel_of-injective i j h = laws.injective i j (append-cancel channel_prefix _ _ h)

  -- One more message on the channel of a tenant that may see it.
  message-IsPrivate :
      (tenant : ℕ) (m : Text) (w : W)
      → IsNoticeFor b P tenant m
      → IsPrivate b P w
      → IsPrivate b P (b.redis.publish (channel_of b tenant) m w).1
  message-IsPrivate tenant m w good private other = elim (Bool-cases (tenant == other)) [
    | inl own ↦
        let same : tenant ≡ other = ground arith in
        subst
          (λ o.
            All (IsNoticeFor b P o)
              (b.redis.delivered (channel_of b o) (b.redis.publish (channel_of b tenant) m w).1))
          same
          (elim (laws.own_channel (channel_of b tenant) m w) [
            | inl lost ↦ subst (All (IsNoticeFor b P tenant)) (sym lost) (private tenant)
            | inr sent ↦
                subst (All (IsNoticeFor b P tenant)) (sym sent)
                  (All-append (IsNoticeFor b P tenant) _ (m ∷ []) (private tenant) (good, tt))
          ])
    | inr foreign ↦
        let ne : tenant ≢ other = λ e. absurd (ground arith) in
        subst (All (IsNoticeFor b P other))
          (sym (
            laws.other_channel (channel_of b tenant) (channel_of b other) m w
              (λ e. ne (channel_of-injective tenant other e))))
          (private other)
  ]

  publish-err :
      (tenant : ℕ) (n : Notice) (w : W) (e : Error)
      → b.marshal n ≡ err e
      → (publish b (some tenant) n w).1 ≡ w
  unfolding publish
  publish-err tenant n w e h = ground arith

  publish-ok :
      (tenant : ℕ) (n : Notice) (w : W) (m : Text)
      → b.marshal n ≡ ok m
      → (publish b (some tenant) n w).1 ≡ (b.redis.publish (channel_of b tenant) m w).1
  unfolding publish
  publish-ok tenant n w m h = ground arith

  pub publish-IsPrivate :
      (tenant : Option ℕ) (n : Notice) (w : W)
      → ((t : ℕ) → tenant ≡ some t → P t n)
      → IsPrivate b P w
      → IsPrivate b P (publish b tenant n w).1
  unfolding publish
  publish-IsPrivate none n w good private = private
  publish-IsPrivate (some tenant) n w good private = elim (Result-cases (b.marshal n)) [
    | inl (e, failed) ↦ subst (IsPrivate b P) (sym (publish-err tenant n w e failed)) private
    | inr (m, payload) ↦
        subst (IsPrivate b P) (sym (publish-ok tenant n w m payload))
          (message-IsPrivate tenant m w (n, payload, good tenant refl) private)
  ]
