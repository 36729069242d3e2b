-- ===== src/Client/Outbox/Acknowledged.antt =====
-- Acknowledging push results: what happens to each queued change.
use risk_opportunity_manager.Prelude.{
  ℕ, ◌+◌, ◌≡◌, refl, ◌∙◌, ap, subst, ◌⊎◌, Bool, true, false, ◌&&◌, Option, none, some, List, [],
  ◌∷◌, if◌then◌else◌, ◌==◌, inl, inr, arith, Bool-cases, ==_iff, find, delete, update, find-update,
  find-delete_covered, find-delete_apart,
}
use risk_opportunity_manager.Protocol.{Entity}
use risk_opportunity_manager.Client.Outbox.{Row, Table, has_id}
use risk_opportunity_manager.Client.Outbox.Acknowledge.{
  PushResult, LocalStore, Turn, skipped, raised, acknowledged, advance_row, acknowledge_result,
  acknowledge_named, acknowledge_found, advance_found, advance_replacement, acknowledge_sent,
  turn_of, EntityText, named, no_entity, other_entity, acknowledge_loop,
  acknowledge_accepted_results,
}
use risk_opportunity_manager.Client.Outbox.Unique.{IsUnique, update-IsUnique, delete-IsUnique}
use risk_opportunity_manager.Client.Outbox.Kept.{
  Kept, Kept-refl, Kept-updated, Kept-removed, Kept-skip, Kept-trans,
}

-- what one result can do to the table
abbrev pub Edit : PushResult → Table → Table → Type 0
Edit a rows rows' =
    ((c : ℕ) × (a.change_id ≡ some c) × (a.accepted ≡ true) × (rows' ≡ delete (has_id c) rows))
    ⊎ ((c : ℕ) × (rows' ≡ update (has_id c) (advance_row a) rows))

module _ {S : Type 0} (store : LocalStore S) where
  turn_of-table :
      (rows rows' : Table) (o : Option S) (s' : S)
      → turn_of rows o ≡ acknowledged rows' s'
      → rows' ≡ rows
  turn_of-table rows rows' none s' h = cc h
  turn_of-table rows rows' (some s) s' h = cc h

  if_turn :
      (b : Bool) (rows rows' : Table) (o : Option S) (s' : S)
      → (if b then turn_of rows o else raised) ≡ acknowledged rows' s'
      → rows' ≡ rows
  if_turn true rows rows' o s' h = turn_of-table rows rows' o s' h
  if_turn false rows rows' o s' h = cc h

  sent-Edit :
      (p c : ℕ) (sent : Row) (a : PushResult) (rows rows' : Table) (s s' : S)
      → acknowledge_sent store p c sent a rows s ≡ acknowledged rows' s'
      → rows' ≡ delete (has_id c) rows
  unfolding acknowledge_sent
  sent-Edit p c sent a rows rows' s s' h = if_turn _ (delete (has_id c) rows) rows' _ s' h

  found-Edit :
      (p : ℕ) (a : PushResult) (e : Entity) (i : ℕ) (o : Option Row) (rows rows' : Table) (s s' : S)
      → advance_found store p a e i o rows s ≡ acknowledged rows' s'
      → Edit a rows rows'
  found-Edit p a e i none rows rows' s s' h = cc h
  found-Edit p a e i (some r) rows rows' s s' h = inr (r.change_id, turn_of-table _ rows' _ s' h)

  advance-Edit :
      (p : ℕ) (a : PushResult) (e : EntityText) (i : Option ℕ) (rows rows' : Table) (s s' : S)
      → advance_replacement store p a e i rows s ≡ acknowledged rows' s'
      → Edit a rows rows'
  unfolding advance_replacement
  advance-Edit p a (named e) (some i) rows rows' s s' h = found-Edit p a e i _ rows rows' s s' h
  advance-Edit p a (named e) none rows rows' s s' h = cc h
  advance-Edit p a no_entity i rows rows' s s' h = cc h
  advance-Edit p a other_entity i rows rows' s s' h = cc h

  pub named-Edit :
      (p : ℕ) (a : PushResult) (o : Option ℕ) (rows rows' : Table) (s s' : S)
      → a.change_id ≡ o
      → acknowledge_named store p a o rows s ≡ acknowledged rows' s'
      → Edit a rows rows'
  named-Edit p a none rows rows' s s' named_by h = cc h
  named-Edit p a (some c) rows rows' s s' named_by h = branch a.accepted refl h
    where
      found_or_not :
          a.accepted ≡ true
          → (o : Option Row) → acknowledge_found store p c a o rows s ≡ acknowledged rows' s'
          → Edit a rows rows'
      found_or_not takes none k = advance-Edit p a a.entity a.entity_id rows rows' s s' k
      found_or_not takes (some sent) k =
          inl (c, named_by, takes, sent-Edit p c sent a rows rows' s s' k)

      branch :
          (b : Bool)
          → a.accepted ≡ b
          → (if b
              then acknowledge_found store p c a
                  (find (λ r. has_id c r && r.project_id == p) rows)
                  rows
                  s
              else skipped)
            ≡ acknowledged rows' s'
          → Edit a rows rows'
      branch true takes k = found_or_not takes _ k
      branch false refused k = cc k

  other_row : (c d : ℕ) → (d == c) ≡ false → (r : Row) → has_id c r ≡ true → has_id d r ≡ false
  other_row c d h r k = ground arith

  own_row : (c d : ℕ) → (d == c) ≡ true → (r : Row) → has_id c r ≡ true → has_id d r ≡ true
  own_row c d h r k = ground arith

  Edit-IsUnique :
      (a : PushResult) (rows rows' : Table) → Edit a rows rows' → IsUnique rows → IsUnique rows'
  Edit-IsUnique a rows rows' (inl (c, _, _, same)) u = rw same (delete-IsUnique (has_id c) rows u)
  Edit-IsUnique a rows rows' (inr (c, same)) u =
      rw same (update-IsUnique (has_id c) (advance_row a) rows (λ r. (refl, refl, refl, refl)) u)

  Edit-Kept :
      (a : PushResult) (rows rows' : Table)
      → Edit a rows rows'
      → (c : ℕ) → Kept c (a ∷ []) (find (has_id c) rows) (find (has_id c) rows')
  Edit-Kept a rows rows' (inr (d, same)) c =
      rw (same, find-update (has_id c) (has_id d) (advance_row a) (λ r. refl) rows)
        (Kept-updated c d a (find (has_id c) rows))
  Edit-Kept a rows rows' (inl (d, named_by, takes, same)) c = elim (Bool-cases (d == c)) [
    | inl own ↦
        rw (same, find-delete_covered (has_id c) (has_id d) (own_row c d own) rows)
          (Kept-removed c a (find (has_id c) rows) takes (named_by ∙ ap some ((==_iff d c).0 own)))
    | inr other ↦
        rw (same, find-delete_apart (has_id c) (has_id d) (other_row c d other) rows)
          (Kept-refl c (a ∷ []) (find (has_id c) rows))
  ]

  -- a round of the loop
  result-Edit :
      (p : ℕ) (a : PushResult) (rows rows' : Table) (s s' : S)
      → acknowledge_result store p a rows s ≡ acknowledged rows' s'
      → Edit a rows rows'
  unfolding acknowledge_result
  result-Edit p a rows rows' s s' h = named-Edit p a a.change_id rows rows' s s' refl h

  abbrev Whole : List PushResult → Table → Table → Type 0
  Whole results rows rows' =
      ((c : ℕ) → Kept c results (find (has_id c) rows) (find (has_id c) rows'))
      × (IsUnique rows → IsUnique rows')

  loop-Whole :
      (p : ℕ) (results : List PushResult) (n m : ℕ) (rows rows' : Table) (s s' : S)
      → acknowledge_loop store p results n rows s ≡ some (rows', s', m)
      → Whole results rows rows'
  unfolding acknowledge_loop
  loop-Whole p [] n m rows rows' s s' h =
      subst (Whole [] rows) (same_table h) ((λ c. Kept-refl c [] (find (has_id c) rows)), λ u. u)
    where
      same_table :
          ◌≡◌ {A = Option (Table × S × ℕ)} (some (rows, s, n)) (some (rows', s', m)) → rows ≡ rows'
      same_table e = cc e
  loop-Whole p (a ∷ rest) n m rows rows' s s' h =
      turn (λ k rows1 s1 g. loop-Whole p rest k m rows1 rows' s1 s' g)
        (acknowledge_result store p a rows s) refl h
    where
      turn :
          ((k : ℕ) (rows1 : Table) (s1 : S)
            → acknowledge_loop store p rest k rows1 s1 ≡ some (rows', s', m)
            → Whole rest rows1 rows')
          → (t : Turn S) → acknowledge_result store p a rows s ≡ t
          → (elim t [
            | skipped ↦ acknowledge_loop store p rest n rows s
            | raised ↦ none
            | acknowledged rows1 s1 ↦ acknowledge_loop store p rest (n + 1) rows1 s1
          ])
            ≡ some (rows', s', m)
          → Whole (a ∷ rest) rows rows'
      turn go skipped e k = let w = go n rows s k in ((λ c. Kept-skip c a rest _ _ (w.0 c)), w.1)
      turn go raised e k = cc k
      turn go (acknowledged rows1 s1) e k =
          let edit = result-Edit p a rows rows1 s s1 e in
          let w = go (n + 1) rows1 s1 k in
          (
            (λ c. Kept-trans c a rest _ _ _ (Edit-Kept a rows rows1 edit c) (w.0 c)),
            λ u. w.1 (Edit-IsUnique a rows rows1 edit u),
          )

  acknowledge-Whole :
      (p : ℕ) (results : List PushResult) (n : ℕ) (rows rows' : Table) (s s' : S)
      → acknowledge_accepted_results store p results rows s ≡ some (rows', s', n)
      → Whole results rows rows'
  unfolding acknowledge_accepted_results
  acknowledge-Whole p results n rows rows' s s' h = released (store.release_codes p results s) h
    where
      released :
          (o : Option S)
          → (elim o [ none ↦ none | some s1 ↦ acknowledge_loop store p results 0 rows s1 ])
            ≡ some (rows', s', n)
          → Whole results rows rows'
      released none k = cc k
      released (some s1) k = loop-Whole p results 0 n rows rows' s1 s' k

  -- After an acknowledgement that does not fail, each queued change is still there, unless a result
  -- accepts its id, and is the same edit, but for its code, on a base that is not lower; and no
  -- change is there that was not there before.
  pub acknowledge_keeps :
      (p : ℕ) (results : List PushResult) (n : ℕ) (rows rows' : Table) (s s' : S)
      → acknowledge_accepted_results store p results rows s ≡ some (rows', s', n)
      → (c : ℕ) → Kept c results (find (has_id c) rows) (find (has_id c) rows')
  acknowledge_keeps p results n rows rows' s s' h =
      (acknowledge-Whole p results n rows rows' s s' h).0

  pub acknowledge-IsUnique :
      (p : ℕ) (results : List PushResult) (n : ℕ) (rows rows' : Table) (s s' : S)
      → acknowledge_accepted_results store p results rows s ≡ some (rows', s', n)
      → IsUnique rows
      → IsUnique rows'
  acknowledge-IsUnique p results n rows rows' s s' h =
      (acknowledge-Whole p results n rows rows' s s' h).1
