-- ===== src/Server/Records/Mutations/Flush.antt =====
-- What the listeners of db/models.py do when a written row is flushed, and the database's checks.
use risk_opportunity_manager.Prelude.{
  ℕ, ◌+◌, Bool, not, Option, none, some, List, [], ◌∷◌, ◌++◌, if◌then◌else◌, ◌==◌, find, update,
}
use risk_opportunity_manager.Server.Push.{unexpected, integrity_error}
use risk_opportunity_manager.Server.Records.{
  Model, assessments, Row, Records, Counter, Env, value_of, is_row, parent_of, item_of,
}
use risk_opportunity_manager.Server.Records.Mutations.{Try, value, raised, compute_score, scales_ok}

abbrev pub of_project : ℕ → Counter → Bool
of_project p c = c.project_id == p

-- _next_change_sequence: the counters and the new number; `none` is the RuntimeError
unfoldable pub next_change_sequence : List Counter → Option ℕ → Option (List Counter × ℕ)
next_change_sequence counters none = none
next_change_sequence counters (some p) = elim (find (of_project p) counters) [
  | none ↦ none
  | some c ↦ some (
    update (of_project p) (λ k. record k { last_sequence = k.last_sequence + 1 }) counters,
    c.last_sequence + 1,
  )
]

abbrev pub insert_row : Row → List Row → List Row
insert_row r rows = rows ++ r ∷ []

abbrev pub replace_row : Model → ℕ → Row → List Row → List Row
replace_row m i r rows = update (is_row m i) (λ _. r) rows

module _ (env : Env) where
  abbrev project_of_item : Option Row → Option ℕ
  project_of_item none = none
  project_of_item (some item) = some item.project_id

  -- _sync_entity_project_id
  abbrev pub sequenced_in : Model → List Row → Row → Option ℕ
  sequenced_in assessments rows r = project_of_item (parent_of env rows (item_of env r))
  sequenced_in _ rows r = some r.project_id

  unfoldable pub sequence_project : List Row → Row → Option ℕ
  unfolding parent_of value_of
  sequence_project rows r = sequenced_in r.model rows r

  abbrev pub stamp : ℕ → Row → Row
  stamp n r = record (compute_score r) { change_sequence = n }

  -- the flush of one written row: _compute_score, _assign_change_sequence, and the database's checks;
  -- `write` puts the row into the table
  unfoldable pub flush_row : Records → Row → (Row → List Row → List Row) → Try (Records × Row)
  unfolding next_change_sequence sequence_project compute_score
  flush_row d r write =
      if not (scales_ok r)
      then raised unexpected
      else elim (next_change_sequence d.counters (sequence_project d.rows r)) [
        | none ↦ raised unexpected
        | some (counters, n) ↦
            if env.violates d.rows (stamp n r)
            then raised integrity_error
            else value
                (record d { rows = write (stamp n r) d.rows; counters = counters }, stamp n r)
      ]
