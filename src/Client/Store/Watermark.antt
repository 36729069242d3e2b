-- ===== src/Client/Store/Watermark.antt =====
-- The sync watermark of a project in server_state.py: a server time to show and a sequence number.
use risk_opportunity_manager.Prelude.{
  ℕ, ◌≡◌, refl, ◌∙◌, ap, subst, ℤ, pos, negsuc, ltb_ℤ, Bool, true, Option, none, some, List, [],
  ◌∷◌, ◌++◌, if◌then◌else◌, ◌==◌, ==_refl, String, find, find_passes, find-append, find-overwrite,
  or_else, update, arith, Bool-cases, Option-cases, inl, inr,
}

-- A row of sync_state.
pub record Mark : Type 0 where
  pub project_id : ℕ
  pub last_server_time : String
  pub last_server_sequence : ℤ

abbrev pub is_mark : ℕ → Mark → Bool
is_mark p m = m.project_id == p

abbrev pub mark_time : Option Mark → String
mark_time none = "1970-01-01T00:00:00"
mark_time (some m) = m.last_server_time

abbrev pub mark_sequence : Option Mark → ℤ
mark_sequence none = pos 0
mark_sequence (some m) = m.last_server_sequence

unfoldable pub get_last_server_time : ℕ → List Mark → String
unfolding find
get_last_server_time p marks = mark_time (find (is_mark p) marks)

unfoldable pub get_last_server_sequence : ℕ → List Mark → ℤ
unfolding find
get_last_server_sequence p marks = mark_sequence (find (is_mark p) marks)

-- _upsert_row by project_id
abbrev put_mark : Option Mark → Mark → List Mark → List Mark
put_mark none m marks = marks ++ m ∷ []
put_mark (some old) m marks = update (is_mark m.project_id) (λ _. m) marks

-- 0 if server_sequence is None
abbrev or_none : Option ℤ → ℤ
or_none none = pos 0
or_none (some n) = n

-- `none` is the ValueError of a negative number
unfoldable pub set_sync_watermark : ℕ → String → Option ℤ → List Mark → Option (List Mark)
unfolding find update
set_sync_watermark p time server_sequence marks =
    let sequence = or_none server_sequence in
    let m : Mark = record {
      project_id = p;
      last_server_time = time;
      last_server_sequence = sequence;
    } in
    if ltb_ℤ sequence (pos 0) then none else some (put_mark (find (is_mark p) marks) m marks)

unfoldable pub set_last_server_time : ℕ → String → List Mark → Option (List Mark)
unfolding set_sync_watermark get_last_server_sequence
set_last_server_time p time marks =
    set_sync_watermark p time (some (get_last_server_sequence p marks)) marks

unfoldable pub reset_sync_watermark : ℕ → String → List Mark → Option (List Mark)
unfolding set_sync_watermark
reset_sync_watermark p time marks = set_sync_watermark p time (some (pos 0)) marks

find-put_mark :
    (p q : ℕ) (m : Mark) (marks : List Mark)
    → m.project_id ≡ p
    → find (is_mark q) (put_mark (find (is_mark p) marks) m marks)
      ≡ (if p == q then some m else find (is_mark q) marks)
unfolding find
find-put_mark p q m marks own = elim (Option-cases (find (is_mark p) marks)) [
  | inl new ↦ rw new (
      find-append (is_mark q) marks (m ∷ []) ∙ elim (Bool-cases (p == q)) [
        | inl same ↦
            ground (arith, own, same, new, ap (λ k. find (is_mark k) marks) (same_project p q same))
        | inr other ↦ ground (arith, own, other, or_else-none (find (is_mark q) marks))
      ])
  | inr (old, found) ↦ rw found (
      find-overwrite (is_mark q) (is_mark m.project_id) m (λ x h. ground (arith, h)) marks
      ∙ elim (Bool-cases (p == q)) [
        | inl same ↦
            let here : find (is_mark q) marks ≡ some old =
              subst (λ k. find (is_mark k) marks ≡ some old) (same_project p q same) found in
            rw here (ground (arith, own, same, find_passes (is_mark q) old marks here))
        | inr other ↦ elim (Option-cases (find (is_mark q) marks)) [
          | inl none_there ↦ rw none_there (ground (arith, other))
          | inr (x, there) ↦
              rw there (ground (arith, own, other, find_passes (is_mark q) x marks there))
        ]
      ])
]
  where
    same_project : (p q : ℕ) → (p == q) ≡ true → p ≡ q
    same_project p q h = ground (arith, h)

    or_else-none : (o : Option Mark) → or_else o none ≡ o
    or_else-none none = refl
    or_else-none (some m) = refl

-- A sequence number that is not negative is stored with the time and read back, and the times and
-- the numbers of the other projects stay; setting only the time afterwards keeps the number, and a
-- negative number is refused.
pub set_sync_watermark_lem :
    (p n : ℕ) (time later : String) (marks : List Mark)
    → (left : List Mark) × (set_sync_watermark p time (some (pos n)) marks ≡ some left)
      × ((q : ℕ)
          → get_last_server_time q left ≡ (if p == q then time else get_last_server_time q marks))
      × (get_last_server_sequence p left ≡ pos n)
      × ((q : ℕ)
          → get_last_server_sequence q left
            ≡ (if p == q then pos n else get_last_server_sequence q marks))
      × (set_last_server_time p later left ≡ set_sync_watermark p later (some (pos n)) left)
      × (set_sync_watermark p time (some (negsuc n)) marks ≡ none)
unfolding set_sync_watermark get_last_server_time get_last_server_sequence set_last_server_time
set_sync_watermark_lem p n time later marks =
    let m : Mark = record {
      project_id = p;
      last_server_time = time;
      last_server_sequence = pos n;
    } in
    let left = put_mark (find (is_mark p) marks) m marks in
    let own : find (is_mark p) left ≡ some m =
      find-put_mark p p m marks refl ∙ rw (==_refl p) refl in
    (
      left,
      ground arith,
      λ q. ap mark_time (find-put_mark p q m marks refl) ∙ time_kept q m,
      ap mark_sequence own,
      λ q. ap mark_sequence (find-put_mark p q m marks refl) ∙ kept q m,
      ap (λ o. set_sync_watermark p later (some o) left) (ap mark_sequence own),
      ground arith,
    )
  where
    time_kept :
        (q : ℕ) (m : Mark)
        → mark_time (if p == q then some m else find (is_mark q) marks)
          ≡ (if p == q then m.last_server_time else mark_time (find (is_mark q) marks))
    time_kept q m = elim (Bool-cases (p == q)) [
      | inl same ↦ rw same refl
      | inr other ↦ rw other refl
    ]

    kept :
        (q : ℕ) (m : Mark)
        → mark_sequence (if p == q then some m else find (is_mark q) marks)
          ≡ (if p == q then m.last_server_sequence else mark_sequence (find (is_mark q) marks))
    kept q m = elim (Bool-cases (p == q)) [ inl same ↦ rw same refl | inr other ↦ rw other refl ]
