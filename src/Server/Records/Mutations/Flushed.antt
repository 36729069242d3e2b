-- ===== src/Server/Records/Mutations/Flushed.antt =====
-- What a successful write did to the records, in flush_row, create_new and update_existing.
use risk_opportunity_manager.Prelude.{
  ℕ, ◌≡◌, refl, sym, ap, ◌∙◌, Bool-cases, inl, inr, some, List, Option-cases,
}
use risk_opportunity_manager.Server.Push.{Failure}
use risk_opportunity_manager.Server.Records.{Row, Records, Counter, Env}
use risk_opportunity_manager.Server.Records.Mutations.{Try, value, raised, ◌>>=◌, scales_ok}
use risk_opportunity_manager.Server.Records.Mutations.Flush.{
  stamp, flush_row, next_change_sequence, sequence_project,
}

pub raised_value {ℓ} : {C : Type ℓ} {A : Type 0} {e : Failure} {a : A} → raised e ≡ value a → C
raised_value h = absurd (cc)

pub value-injective : {A : Type 0} {a b : A} → value a ≡ value b → a ≡ b
value-injective h = cc

pub bind-value :
    {A B : Type 0} (t : Try A) (f : A → Try B) (b : B)
    → (t >>= f) ≡ value b
    → (a : A) × (t ≡ value a) × (f a ≡ value b)
bind-value (value a) f b h = (a, refl, h)
bind-value (raised e) f b h = raised_value h

module _ (env : Env) where
  pub record IsFlushed (d : Records) (r : Row) (write : Row → List Row → List Row) (d' : Records)
      (r' : Row) : Type 0 where
    pub counters : List Counter
    pub number : ℕ
    pub sequenced :
        next_change_sequence d.counters (sequence_project env d.rows r) ≡ some (counters, number)
    pub row : r' ≡ stamp env number r
    pub records : d' ≡ record d { rows = write r' d.rows; counters = counters }

  pub flush_row-IsFlushed :
      (d : Records) (r : Row) (write : Row → List Row → List Row) (d' : Records) (r' : Row)
      → flush_row env d r write ≡ value (d', r')
      → IsFlushed d r write d' r'
  unfolding flush_row
  flush_row-IsFlushed d r write d' r' h = elim (Bool-cases (scales_ok r)) [
    | inr bad ↦ raised_value (rw bad at h)
    | inl ok ↦
        elim (Option-cases (next_change_sequence d.counters (sequence_project env d.rows r))) [
          | inl missing ↦ raised_value (rw (ok, missing) at h)
          | inr ((counters, n), next) ↦ elim (Bool-cases (env.violates d.rows (stamp env n r))) [
            | inl refused ↦ raised_value (rw (ok, next, refused) at h)
            | inr fine ↦
                let same = value-injective (rw (ok, next, fine) at h) in
                record {
                  counters = counters;
                  number = n;
                  sequenced = next;
                  row = sym (ap (λ x. x.1) same);
                  records =
                      sym (ap (λ x. x.0) same)
                      ∙ ap (λ (s : Row). record d { rows = write s d.rows; counters = counters })
                          (ap (λ x. x.1) same);
                }
          ]
        ]
  ]
