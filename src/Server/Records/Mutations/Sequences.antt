-- ===== src/Server/Records/Mutations/Sequences.antt =====
-- The change sequence that a written row takes from its project's counter, which the pull reads.
use risk_opportunity_manager.Prelude.{
  ℕ, ◌+◌, ℤ, ◌≡◌, ◌⊎◌, refl, sym, ap, subst, ◌∙◌, false, Option-cases, inl, inr, Option, none, some,
  List, ◌==◌, find, find_passes, update, find-update, updated, arith,
}
use risk_opportunity_manager.Protocol.{Entity, Op}
use risk_opportunity_manager.Json.{Fields}
use risk_opportunity_manager.Server.Push.{done}
use risk_opportunity_manager.Server.Records.{Row, Records, Counter, Env, Model, model_of, find_row}
use risk_opportunity_manager.Server.Records.Mutations.Flush.{of_project, next_change_sequence}
use risk_opportunity_manager.Server.Records.Mutations.Apply.{apply_change}
use risk_opportunity_manager.Server.Records.Mutations.Written.{IsOwner}
use risk_opportunity_manager.Server.Records.Mutations.Applied.{IsApplied, apply_change-IsApplied}
use risk_opportunity_manager.Server.Records.Mutations.Keys.{find_row_new, find_row_changed, IsKeyed}

abbrev sequence_of : Option Counter → Option ℕ
sequence_of none = none
sequence_of (some c) = some c.last_sequence

-- the project's last sequence number
abbrev pub last_of : ℕ → List Counter → Option ℕ
last_of p counters = sequence_of (find (of_project p) counters)

-- what drawing the number `n` from a project's counter did
pub record IsDrawn (p : ℕ) (counters counters' : List Counter) (n : ℕ) : Type 0 where
  pub previous : ℕ
  pub before : last_of p counters ≡ some previous
  pub next : n ≡ previous + 1
  pub after : last_of p counters' ≡ some n
  pub others : (q : ℕ) → (q == p) ≡ false → last_of q counters' ≡ last_of q counters

abbrev advance : Counter → Counter
advance k = record k { last_sequence = k.last_sequence + 1 }

last_of-advance :
    (p q : ℕ) (counters : List Counter)
    → (q == p) ≡ false
    → last_of q (update (of_project p) advance counters) ≡ last_of q counters
last_of-advance p q counters other = elim (Option-cases (find (of_project q) counters)) [
  | inl missing ↦
      ap sequence_of (find-update (of_project q) (of_project p) advance (λ x. refl) counters)
      ∙ rw missing refl
  | inr (c, found) ↦
      ap sequence_of (find-update (of_project q) (of_project p) advance (λ x. refl) counters)
      ∙ rw found (ground (arith, other, find_passes (of_project q) c counters found))
]

not_some {ℓ} : {A : Type 0} {C : Type ℓ} {a : A} → none ≡ some a → C
not_some h = absurd (cc)

some-injective : {A : Type 0} {a b : A} → some a ≡ some b → a ≡ b
some-injective h = cc

next_change_sequence-IsDrawn :
    (counters : List Counter) (project : Option ℕ) (counters' : List Counter) (n : ℕ)
    → next_change_sequence counters project ≡ some (counters', n)
    → (p : ℕ) × (project ≡ some p) × IsDrawn p counters counters' n
unfolding next_change_sequence
next_change_sequence-IsDrawn counters none counters' n h = not_some h
next_change_sequence-IsDrawn counters (some p) counters' n h =
    elim (Option-cases (find (of_project p) counters)) [
      | inl missing ↦ not_some (rw (next_change_sequence, missing) at h)
      | inr (c, found) ↦
          let same = some-injective (rw (next_change_sequence, found) at h) in
          let drawn = ap (λ x. x.1) same in
          let left = ap (λ x. x.0) same in
          (
            p,
            refl,
            record {
              previous = c.last_sequence;
              before = ap sequence_of found;
              next = sym drawn;
              after =
                  ap (last_of p) (sym left)
                  ∙ ap sequence_of
                      (find-update (of_project p) (of_project p) advance (λ x. refl) counters)
                  ∙ ap (λ o. sequence_of (updated (of_project p) advance o)) found
                  ∙ ground (arith, find_passes (of_project p) c counters found, drawn);
              others = λ q other. ap (last_of q) (sym left) ∙ last_of-advance p q counters other;
            },
          )
    ]

-- the row with a key has just drawn its change sequence from a project's counter
pub record IsStamped (d : Records) (m : Model) (i : ℕ) (d' : Records) : Type 0 where
  pub row : Row
  pub found : find_row m i d'.rows ≡ some row
  pub project : ℕ
  pub owner : IsOwner row (some project)
  pub drawn : IsDrawn project d.counters d'.counters row.change_sequence

module _ (env : Env) where
  -- On records whose keys are unique, a change that succeeds leaves the records as they are, or the
  -- row at its key carries the next change sequence of a project: one more than the project's last
  -- number, which is the last number afterwards, while other projects' numbers stay.
  pub change_sequences :
      (u p : ℕ) (e : Entity) (op : Op) (base : Option ℤ) (fields : Fields) (c : ℕ) (d : Records)
      (i : ℕ) (d' : Records)
      → IsKeyed d
      → apply_change env u p e op base fields c d ≡ done i d'
      → (d' ≡ d) ⊎ IsStamped d (model_of e) i d'
  change_sequences u p e op base fields c d i d' keyed h =
      let (_, applied) = apply_change-IsApplied env u p e op base fields c d i d' h in
      elim applied [
        | IsApplied.skips _ same ↦ inl same
        | IsApplied.creates _ t ↦
            let (q, is, drawn) =
              next_change_sequence-IsDrawn d.counters t.project d'.counters t.after.change_sequence
                t.sequenced in
            inr (record {
              row = t.after;
              found = find_row_new env d e i p u d' t;
              project = q;
              owner = subst (IsOwner t.after) is t.owner;
              drawn = drawn;
            })
        | IsApplied.writes r fetched w ↦
            let (q, is, drawn) =
              next_change_sequence-IsDrawn d.counters w.project d'.counters w.after.change_sequence
                w.sequenced in
            inr (record {
              row = w.after;
              found = find_row_changed env d e i p base r d' keyed fetched w;
              project = q;
              owner = subst (IsOwner w.after) is w.owner;
              drawn = drawn;
            })
      ]
