-- ===== src/Client/Outbox/Kept.antt =====
-- What an acknowledgement leaves of the queued changes.
use package.text.Mathlib.TextEquality.{eq_iff}
use risk_opportunity_manager.Prelude.{
  ℕ, ◌≡◌, ◌≢◌, refl, ◌∙◌, ap, ℤ, pos, ◌≤ℤ◌, max_ℤ, eq_of_parts, Bool, true, false, ◌&&◌, ◌||◌,
  Option, none, some, List, [], ◌∷◌, ◌==◌, inl, inr, arith, Bool-cases, ==_refl, String, updated,
}
use risk_opportunity_manager.Protocol.{Entity, is_scored}
use risk_opportunity_manager.Json.{Fields, Value, get, get-put}
use risk_opportunity_manager.Client.Outbox.{Row, has_id}
use risk_opportunity_manager.Client.Outbox.Acknowledge.{
  PushResult, or_zero, nonzero, advanced_fields, advance_row, with_code, acknowledged_version,
}

-- A row after its base was advanced: the same edit, but for the code, on a base that is not lower.
pub record IsAdvanced (r s : Row) : Type 0 where
  pub same : s ≡ record r { base_version = s.base_version; fields = s.fields }
  pub edit : (k : String) → k ≢ "code" → get k s.fields ≡ get k r.fields
  pub base : or_zero r.base_version ≤ℤ or_zero s.base_version

abbrev names : ℕ → Option ℕ → Bool
names c none = false
names c (some d) = d == c

-- a result that accepts the change
abbrev pub accepts : ℕ → List PushResult → Bool
accepts c [] = false
accepts c (a ∷ rest) = (a.accepted && names c a.change_id) || accepts c rest

-- from the change that was queued under an id to the one that is
abbrev pub Kept : ℕ → List PushResult → Option Row → Option Row → Type 0
Kept c results none none = Unit
Kept c results none (some s) = ⊥
Kept c results (some r) none = accepts c results ≡ true
Kept c results (some r) (some s) = IsAdvanced r s

IsAdvanced-refl : (r : Row) → IsAdvanced r r
IsAdvanced-refl r = record { same = refl; edit = λ k h. refl; base = omega arith }

or_zero-nonzero : (v : ℤ) → or_zero (nonzero v) ≡ v
or_zero-nonzero v = ground (arith, eq_of_parts v (pos 0))

max-ge : (v w : ℤ) → v ≤ℤ max_ℤ v w
max-ge v w = ground arith

with_code-get :
    (v : Option Value) (d : Fields) (k : String) → k ≢ "code" → get k (with_code v d) ≡ get k d
with_code-get none d k h = refl
with_code-get (some v) d k h = grind (arith, get-put "code" k v d, eq_iff "code" k, h)

advanced_fields_lem :
    (e : Entity) (server : Option Fields) (d : Fields) (k : String)
    → k ≢ "code"
    → get k (advanced_fields e server d) ≡ get k d
unfolding advanced_fields
advanced_fields_lem e none d k h = refl
advanced_fields_lem e (some server) d k h = elim (Bool-cases (is_scored e)) [
  | inl scored ↦ rw scored (with_code-get (get "code" server) d k h)
  | inr other ↦ rw other refl
]

IsAdvanced-advance_row : (a : PushResult) (r : Row) → IsAdvanced r (advance_row a r)
IsAdvanced-advance_row a r = record {
  same = refl;
  edit = λ k h. advanced_fields_lem r.entity a.server_record r.fields k h;
  base =
      rw (or_zero-nonzero (max_ℤ (or_zero r.base_version) (or_zero (acknowledged_version a))))
        (max-ge (or_zero r.base_version) (or_zero (acknowledged_version a)));
}

IsAdvanced-trans : (r s t : Row) → IsAdvanced r s → IsAdvanced s t → IsAdvanced r t
IsAdvanced-trans r s t h g = record {
  same =
      g.same
      ∙ ap {A = Row} {B = Row} (λ x. record x { base_version = t.base_version; fields = t.fields })
          h.same;
  edit = λ k n. g.edit k n ∙ h.edit k n;
  base = omega (arith, h.base, g.base);
}

pub Kept-refl : (c : ℕ) (results : List PushResult) (o : Option Row) → Kept c results o o
Kept-refl c results none = tt
Kept-refl c results (some r) = IsAdvanced-refl r

-- the row of one change id after an UPDATE of another row, or of its own
pub Kept-updated :
    (c d : ℕ) (a : PushResult) (o : Option Row)
    → Kept c (a ∷ []) o (updated (has_id d) (advance_row a) o)
Kept-updated c d a none = tt
Kept-updated c d a (some r) = elim (Bool-cases (has_id d r)) [
  | inl own ↦ rw own (IsAdvanced-advance_row a r)
  | inr other ↦ rw other (IsAdvanced-refl r)
]

pub Kept-removed :
    (c : ℕ) (a : PushResult) (o : Option Row)
    → a.accepted ≡ true
    → a.change_id ≡ some c
    → Kept c (a ∷ []) o none
Kept-removed c a none h k = tt
Kept-removed c a (some r) h k = rw (h, k, ==_refl c) refl

pub Kept-skip :
    (c : ℕ) (a : PushResult) (rest : List PushResult) (o q : Option Row)
    → Kept c rest o q
    → Kept c (a ∷ rest) o q
Kept-skip c a rest none none h = tt
Kept-skip c a rest none (some t) h = h
Kept-skip c a rest (some r) none h = ground (arith, h)
Kept-skip c a rest (some r) (some t) h = h

pub Kept-trans :
    (c : ℕ) (a : PushResult) (rest : List PushResult) (o p q : Option Row)
    → Kept c (a ∷ []) o p
    → Kept c rest p q
    → Kept c (a ∷ rest) o q
Kept-trans c a rest none none q h g = Kept-skip c a rest none q g
Kept-trans c a rest none (some s) q h g = elim h [ ]
Kept-trans c a rest (some r) none none h g = ground (arith, h)
Kept-trans c a rest (some r) none (some t) h g = elim g [ ]
Kept-trans c a rest (some r) (some s) none h g = ground (arith, g)
Kept-trans c a rest (some r) (some s) (some t) h g = IsAdvanced-trans r s t h g
