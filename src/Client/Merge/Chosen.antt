-- ===== src/Client/Merge/Chosen.antt =====
-- What merged_record of conflict_merge.py makes of the two copies.
use package.text.Mathlib.Text.{◌==◌ as str_eq}
use package.text.Mathlib.TextEquality.{eq_iff}
use risk_opportunity_manager.Prelude.{
  ◌≡◌, refl, sym, ap, subst, ◌∙◌, Bool, true, false, ◌&&◌, ◌||◌, Option, none, some, List, [], ◌∷◌,
  ◌++◌, if◌then◌else◌, String, or_else, Bool-cases, Option-cases, inl, inr, arith,
}
use risk_opportunity_manager.Protocol.{
  Entity, risk, opportunity, action, assessment, helpdesk_ticket, is_scored,
}
use risk_opportunity_manager.Json.{Fields, Value, get, put, get-put}
use risk_opportunity_manager.Client.Merge.{
  Checks, Conflict, Side, merge_fields, impact_dimensions, is_in, pick, update_all, is_mine,
  selected_of, mergeable_fields,
}
use risk_opportunity_manager.Client.Merge.Record.{
  all_valid, given, largest, with_max, with_impact_of, and_selected, id_value, server_copy,
  merged_from, merged_copies, is_choice, merged_record,
}

-- a choice keeps the local value of a field
unfoldable pub chosen_mine : String → List (String × Side) → Bool
chosen_mine k [] = false
chosen_mine k ((j, side) ∷ choices) = (str_eq j k && is_mine side) || chosen_mine k choices

is_in-append : (k : String) (xs ys : List String) → is_in k (xs ++ ys) ≡ (is_in k xs || is_in k ys)
unfolding is_in
is_in-append k [] ys = refl
is_in-append k (x ∷ xs) ys = ground (arith, is_in-append k xs ys)

get_same : (j k : String) (d : Fields) → str_eq j k ≡ true → get k d ≡ get j d
get_same j k d h = ap (λ x. get x d) (sym ((eq_iff j k).0 h))

get-pick :
    (k : String) (keys : List String) (d : Fields)
    → get k (pick keys d) ≡ (if is_in k keys then get k d else none)
unfolding pick is_in get
get-pick k [] d = refl
get-pick k (j ∷ keys) d = elim (Option-cases (get j d)) [
  | inl missing ↦ rw (pick, missing) (ground (arith, get_same j k d, missing, get-pick k keys d))
  | inr (v, there) ↦ rw (pick, there) (ground (arith, get_same j k d, there, get-pick k keys d))
]

get-update_all :
    (k : String) (choices : List (String × Side)) (local d : Fields)
    → get k (update_all d (selected_of choices local))
      ≡ (if chosen_mine k choices then or_else (get k local) (get k d) else get k d)
unfolding update_all selected_of chosen_mine
get-update_all k [] local d = refl
get-update_all k ((j, side) ∷ choices) local d = elim (Option-cases (get j local)) [
  | inl missing ↦
      rw (selected_of, missing)
        (ground (arith, get_same j k local, missing, get-update_all k choices local d))
  | inr (v, there) ↦ elim (Bool-cases (is_mine side)) [
    | inl own ↦
        rw (selected_of, there, own)
          (ground (
            arith,
            get_same j k local,
            there,
            get-update_all k choices local (put j v d),
            get-put j k v d,
          ))
    | inr away ↦ rw (selected_of, there, away) (ground (arith, get-update_all k choices local d))
  ]
]

id_apart : (k : String) (e : Entity) → is_in k (merge_fields e) ≡ true → str_eq "id" k ≡ false
unfolding is_in
id_apart k e h = elim (Bool-cases (str_eq "id" k)) [
  | inr other ↦ other
  | inl same ↦
      absurd
        (no_id e (subst (λ j. is_in j (merge_fields e) ≡ true) (sym ((eq_iff "id" k).0 same)) h))
]
  where
    no_id : (e : Entity) → is_in "id" (merge_fields e) ≡ true → ⊥
    no_id risk h = cc h
    no_id opportunity h = cc h
    no_id action h = cc h
    no_id assessment h = cc h
    no_id helpdesk_ticket h = cc h

passed :
    (b : Bool) (o : Option (Fields × Fields)) (r : Fields × Fields)
    → (if b then o else none) ≡ some r
    → (b ≡ true) × (o ≡ some r)
passed true o r h = (refl, h)
passed false o r h = cc h

module _ (ck : Checks) where
  get-server_copy :
      (k : String) (e : Entity) (server : Fields)
      → is_in k (merge_fields e) ≡ true
      → get k (server_copy ck e server) ≡ get k server
  unfolding server_copy is_in
  get-server_copy k e server h =
      let parents : List String = "item_id" ∷ "risk_id" ∷ "opportunity_id" ∷ [] in
      let keys = "id" ∷ (merge_fields e ++ parents) in
      let listed : is_in k keys ≡ true =
        ground (arith, is_in-append k (merge_fields e) parents, h) in
      get-put "id" k (id_value ck (get "id" server)) (pick keys server)
      ∙ rw (id_apart k e h) (get-pick k keys server ∙ rw listed refl)

  abbrev SameApart : String → Fields → Option Fields → Type 0
  SameApart k d none = Unit
  SameApart k d (some d') = get k d' ≡ get k d

  max-SameApart :
      (k : String) (o : Option Value) (d : Fields)
      → str_eq "impact" k ≡ false
      → SameApart k d (with_max o d)
  max-SameApart k none d apart = tt
  max-SameApart k (some v) d apart = get-put "impact" k v d ∙ rw apart refl

  largest-SameApart :
      (k : String) (values : List Value) (d : Fields)
      → str_eq "impact" k ≡ false
      → SameApart k d (largest ck values d)
  largest-SameApart k [] d apart = refl
  largest-SameApart k (v ∷ values) d apart = max-SameApart k (ck.max_of (v ∷ values)) d apart

  impact-SameApart :
      (k : String) (e : Entity) (d : Fields)
      → str_eq "impact" k ≡ false
      → SameApart k d (with_impact_of ck e d)
  unfolding with_impact_of
  impact-SameApart k e d apart = elim (Bool-cases (is_scored e)) [
    | inl scored ↦ rw scored (largest-SameApart k (given impact_dimensions d) d apart)
    | inr plain ↦ rw plain refl
  ]

  -- the selected fields are the chosen local ones and valid, and each other field that is merged, but
  -- the impact, is that of the chosen side
  abbrev pub IsMerged :
      Entity → List (String × Side) → Fields → Fields → Option (Fields × Fields) → Type 0
  IsMerged e choices local server none = Unit
  IsMerged e choices local server (some (record', selected)) =
      (selected ≡ selected_of choices local)
      × (all_valid ck e selected ≡ true)
      × ((k : String)
          → is_in k (merge_fields e) ≡ true
          → str_eq "impact" k ≡ false
          → get k record' ≡ (
              if chosen_mine k choices then or_else (get k local) (get k server) else get k server))

  selected-IsMerged :
      (e : Entity) (choices : List (String × Side)) (local server d : Fields) (o : Option Fields)
      → all_valid ck e (selected_of choices local) ≡ true
      → d ≡ update_all (server_copy ck e server) (selected_of choices local)
      → ((k : String) → str_eq "impact" k ≡ false → SameApart k d o)
      → IsMerged e choices local server (and_selected (selected_of choices local) o)
  selected-IsMerged e choices local server d none valid built same = tt
  selected-IsMerged e choices local server d (some d') valid built same = (
    refl,
    valid,
    λ k listed apart.
        same k apart
        ∙ ap (get k) built
        ∙ get-update_all k choices local (server_copy ck e server)
        ∙ ap (λ o. if chosen_mine k choices then or_else (get k local) o else o)
            (get-server_copy k e server listed),
  )

  from-IsMerged :
      (e : Entity) (choices : List (String × Side)) (local server : Fields)
      → IsMerged e choices local server (merged_from ck e choices local server)
  from-IsMerged e choices local server =
      let selected = selected_of choices local in
      let d = update_all (server_copy ck e server) selected in
      elim (Bool-cases (all_valid ck e selected)) [
        | inr bad ↦ rw bad tt
        | inl valid ↦ rw valid (
            selected-IsMerged e choices local server d (with_impact_of ck e d) valid refl
              (λ k apart. impact-SameApart k e d apart))
      ]

  -- A merge that succeeds has exactly the fields that can be merged as its choices, with a local one
  -- among them; the local fields that it selects pass the python_checks, and each field of the entity but the
  -- impact is the local one if it was chosen and the server's otherwise.
  pub merged_record_chosen :
      (c : Conflict) (e : Entity) (choices : List (String × Side))
      (local server record' selected : Fields) (k : String)
      → c.entity ≡ some e
      → c.local ≡ some local
      → c.server ≡ some server
      → merged_record ck c choices ≡ some (record', selected)
      → is_in k (merge_fields e) ≡ true
      → str_eq "impact" k ≡ false
      → (is_choice (mergeable_fields ck c) choices ≡ true)
        × (selected ≡ selected_of choices local)
        × (all_valid ck e selected ≡ true)
        × (get k record' ≡ (
            if chosen_mine k choices then or_else (get k local) (get k server) else get k server))
  unfolding merged_record
  merged_record_chosen c e choices local server record' selected k kind here there h listed apart =
      let (good, made) =
        passed (is_choice (mergeable_fields ck c) choices)
          (merged_copies ck c.entity choices c.local c.server) (record', selected) h in
      let copies : merged_copies ck c.entity choices c.local c.server
          ≡ merged_from ck e choices local server =
        rw (kind, here, there) refl in
      let (same, valid, fields) =
        subst (IsMerged e choices local server) (sym copies ∙ made)
          (from-IsMerged e choices local server) in
      (good, same, valid, fields k listed apart)
