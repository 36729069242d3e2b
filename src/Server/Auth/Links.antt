-- ===== src/Server/Auth/Links.antt =====
-- The links of _refresh_family_ids in auth/service.py, and what they link: chains of replacements.
use risk_opportunity_manager.Prelude.{
  ℕ, ◌≡◌, ◌⊎◌, Any, refl, sym, ap, subst, ◌∙◌, Bool, true, false, ◌||◌, Option, none, some, List,
  [], ◌∷◌, ◌++◌, if◌then◌else◌, ◌==◌, ==_refl, Bool-cases, inl, inr, arith,
}
use risk_opportunity_manager.Server.Auth.{
  Token, names, is_member, ids_of, is_known, known_link, links, neighbors_from, neighbors,
}

pub same_id : (j i : ℕ) → (j == i) ≡ true → j ≡ i
same_id j i h = ground (arith, h)

pub is_member-append :
    (i : ℕ) (xs ys : List ℕ) → is_member i (xs ++ ys) ≡ (is_member i xs || is_member i ys)
unfolding is_member
is_member-append i [] ys = refl
is_member-append i (x ∷ xs) ys = ground (arith, is_member-append i xs ys)

known_link-known :
    (tokens : List Token) (o : Option ℕ) (j : ℕ)
    → is_member j (known_link tokens o) ≡ true
    → is_known tokens j ≡ true
unfolding is_member
known_link-known tokens none j h = cc
known_link-known tokens (some k) j h = elim (Bool-cases (is_known tokens k)) [
  | inr unknown ↦ cc (rw unknown at h)
  | inl known ↦
      let same = same_id k j (ground (arith, rw known at h)) in
      subst (λ i. is_known tokens i ≡ true) same known
]

pub or_cases : (a b : Bool) → (a || b) ≡ true → (a ≡ true) ⊎ (b ≡ true)
or_cases true b h = inl refl
or_cases false b h = inr h

links-known :
    (tokens : List Token) (i j : ℕ) (t : Token)
    → is_known tokens t.id ≡ true
    → is_member j (links tokens i t) ≡ true
    → is_known tokens j ≡ true
unfolding is_member
links-known tokens i j t own h =
    let front = if t.id == i then known_link tokens t.replaced_by_id else [] in
    let back = if names i t.replaced_by_id then t.id ∷ [] else [] in
    elim (or_cases (is_member j front) (is_member j back)
      (sym (is_member-append j front back) ∙ h)) [
        | inl ahead ↦ elim (Bool-cases (t.id == i)) [
          | inl same ↦ known_link-known tokens t.replaced_by_id j (rw same at ahead)
          | inr other ↦ cc (rw other at ahead)
        ]
        | inr behind ↦ elim (Bool-cases (names i t.replaced_by_id)) [
          | inl named ↦
              subst (λ k. is_known tokens k ≡ true)
                (same_id t.id j (ground (arith, rw named at behind))) own
          | inr other ↦ cc (rw other at behind)
        ]
      ]

pub neighbors_from-known :
    (tokens ts : List Token) (i j : ℕ)
    → ((k : ℕ) → is_member k (ids_of ts) ≡ true → is_known tokens k ≡ true)
    → is_member j (neighbors_from tokens ts i) ≡ true
    → is_known tokens j ≡ true
unfolding neighbors_from is_member
neighbors_from-known tokens [] i j within h = cc
neighbors_from-known tokens (t ∷ rest) i j within h =
    let front = links tokens i t in
    let later = neighbors_from tokens rest i in
    elim (or_cases (is_member j front) (is_member j later)
      (sym (is_member-append j front later) ∙ h)) [
        | inl own ↦ links-known tokens i j t (within t.id (ground (arith, ==_refl t.id))) own
        | inr other ↦
            neighbors_from-known tokens rest i j (λ k m. within k (ground (arith, m))) other
      ]

-- Token i was replaced by token j.
abbrev pub IsReplaced : List Token → ℕ → ℕ → Type 0
IsReplaced tokens i j = Any (λ (t : Token). (t.id ≡ i) × (t.replaced_by_id ≡ some j)) tokens

-- the tokens hold token j
abbrev pub IsToken : List Token → ℕ → Type 0
IsToken tokens j = Any (λ (t : Token). t.id ≡ j) tokens

-- The chains of replacements among the tokens that start at a token, in both directions.
pub data Linked (tokens : List Token) (start : ℕ) : ℕ → Type 0 where
  here : Linked tokens start start
  forward :
      {i j : ℕ}
      → Linked tokens start i
      → IsReplaced tokens i j
      → IsToken tokens j
      → Linked tokens start j
  backward : {i j : ℕ} → Linked tokens start j → IsReplaced tokens i j → Linked tokens start i

is_known-IsToken : (ts : List Token) (j : ℕ) → is_member j (ids_of ts) ≡ true → IsToken ts j
unfolding is_member
is_known-IsToken [] j h = absurd (cc h)
is_known-IsToken (t ∷ ts) j h = elim (or_cases (t.id == j) (is_member j (ids_of ts)) h) [
  | inl same ↦ inl (same_id t.id j same)
  | inr later ↦ inr (is_known-IsToken ts j later)
]

pub IsToken-is_known : (ts : List Token) (j : ℕ) → IsToken ts j → is_member j (ids_of ts) ≡ true
unfolding is_member
IsToken-is_known [] j h = absurd h
IsToken-is_known (t ∷ ts) j (inl same) = ground (arith, same)
IsToken-is_known (t ∷ ts) j (inr later) = ground (arith, IsToken-is_known ts j later)

known_link-some :
    (tokens : List Token) (o : Option ℕ) (j : ℕ)
    → is_member j (known_link tokens o) ≡ true
    → o ≡ some j
unfolding is_member
known_link-some tokens none j h = cc
known_link-some tokens (some k) j h = elim (Bool-cases (is_known tokens k)) [
  | inr unknown ↦ cc (rw unknown at h)
  | inl known ↦ ap some (same_id k j (ground (arith, rw known at h)))
]

names-some : (i : ℕ) (o : Option ℕ) → names i o ≡ true → o ≡ some i
names-some i none h = cc
names-some i (some k) h = ap some (same_id k i h)

-- What a link of a token is.
links-replaced :
    (tokens : List Token) (i j : ℕ) (t : Token)
    → is_member j (links tokens i t) ≡ true
    → ((t.id ≡ i) × (t.replaced_by_id ≡ some j) × IsToken tokens j)
      ⊎ ((t.id ≡ j) × (t.replaced_by_id ≡ some i))
unfolding is_member
links-replaced tokens i j t h =
    let front = if t.id == i then known_link tokens t.replaced_by_id else [] in
    let back = if names i t.replaced_by_id then t.id ∷ [] else [] in
    elim (or_cases (is_member j front) (is_member j back)
      (sym (is_member-append j front back) ∙ h)) [
        | inl ahead ↦ elim (Bool-cases (t.id == i)) [
          | inl same ↦
              let linked = rw same at ahead in
              inl (
                same_id t.id i same,
                known_link-some tokens t.replaced_by_id j linked,
                is_known-IsToken tokens j (known_link-known tokens t.replaced_by_id j linked),
              )
          | inr other ↦ cc (rw other at ahead)
        ]
        | inr behind ↦ elim (Bool-cases (names i t.replaced_by_id)) [
          | inl named ↦ inr (
            same_id t.id j (ground (arith, rw named at behind)),
            names-some i t.replaced_by_id named,
          )
          | inr other ↦ cc (rw other at behind)
        ]
      ]

neighbors_from-IsReplaced :
    (tokens ts : List Token) (i j : ℕ)
    → is_member j (neighbors_from tokens ts i) ≡ true
    → (IsReplaced ts i j × IsToken tokens j) ⊎ IsReplaced ts j i
unfolding neighbors_from is_member
neighbors_from-IsReplaced tokens [] i j h = cc
neighbors_from-IsReplaced tokens (t ∷ rest) i j h =
    let front = links tokens i t in
    let later = neighbors_from tokens rest i in
    elim (or_cases (is_member j front) (is_member j later)
      (sym (is_member-append j front later) ∙ h)) [
        | inl own ↦ elim (links-replaced tokens i j t own) [
          | inl (mine, next, known) ↦ inl (inl (mine, next), known)
          | inr (theirs, next) ↦ inr (inl (theirs, next))
        ]
        | inr other ↦ elim (neighbors_from-IsReplaced tokens rest i j other) [
          | inl (replaced, known) ↦ inl (inr replaced, known)
          | inr replaced ↦ inr (inr replaced)
        ]
      ]

-- a neighbor of what is linked is linked
pub Linked-neighbor :
    (tokens : List Token) (start i j : ℕ)
    → Linked tokens start i
    → is_member j (neighbors tokens i) ≡ true
    → Linked tokens start j
Linked-neighbor tokens start i j before near =
    elim (neighbors_from-IsReplaced tokens tokens i j near) [
      | inl (replaced, known) ↦ Linked.forward before replaced known
      | inr replaced ↦ Linked.backward before replaced
    ]

pub replacement_near :
    (tokens ts : List Token) (i j : ℕ)
    → is_known tokens j ≡ true
    → IsReplaced ts i j
    → is_member j (neighbors_from tokens ts i) ≡ true
unfolding neighbors_from is_member
replacement_near tokens [] i j known h = absurd h
replacement_near tokens (t ∷ rest) i j known (inl (own, next)) =
    is_member-append j (links tokens i t) (neighbors_from tokens rest i)
    ∙ rw (own, next, ==_refl i, known) (ground (arith, ==_refl j))
replacement_near tokens (t ∷ rest) i j known (inr later) =
    is_member-append j (links tokens i t) (neighbors_from tokens rest i)
    ∙ ground (arith, replacement_near tokens rest i j known later)

pub replaced_near :
    (tokens ts : List Token) (i j : ℕ)
    → IsReplaced ts i j
    → is_member i (neighbors_from tokens ts j) ≡ true
unfolding neighbors_from is_member
replaced_near tokens [] i j h = absurd h
replaced_near tokens (t ∷ rest) i j (inl (own, next)) =
    let front = if t.id == j then known_link tokens t.replaced_by_id else [] in
    let back = if names j t.replaced_by_id then t.id ∷ [] else [] in
    is_member-append i (links tokens j t) (neighbors_from tokens rest j)
    ∙ ground (arith, is_member-append i front back, is_in_back t own next)
  where
    is_in_back :
        (t : Token)
        → t.id ≡ i
        → t.replaced_by_id ≡ some j
        → is_member i (if names j t.replaced_by_id then t.id ∷ [] else []) ≡ true
    is_in_back t own next = rw (own, next, ==_refl j) (ground (arith, ==_refl i))
replaced_near tokens (t ∷ rest) i j (inr later) =
    is_member-append i (links tokens j t) (neighbors_from tokens rest j)
    ∙ ground (arith, replaced_near tokens rest i j later)
