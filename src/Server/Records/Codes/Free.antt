-- ===== src/Server/Records/Codes/Free.antt =====
-- The allocation of item codes in sync/mutations.py: its codes read back, and no item has them.
use Prim.Native.Char.{Char, code}
use package.text.Mathlib.Text.{◌==◌ as str_eq}
use package.text.Mathlib.TextEquality.{eq_iff}
use risk_opportunity_manager.Prelude.{
  ℕ, zero, suc, ◌+◌, ◌≤◌, ◌<◌, ◌⊎◌, subst, ◌≡◌, refl, ap, ◌∙◌, true, false, ◌&&◌, Option, none,
  some, Any, Option-cases, ◌==◌, List, [], ◌∷◌, leb, String, arith, inl, inr, Bool-cases, count,
  length, ==_refl,
}
use risk_opportunity_manager.Protocol.{Entity, risk}
use risk_opportunity_manager.Text.{codes, strip_text}
use risk_opportunity_manager.Server.Records.Codes.{
  show_padded, Digits, number_from, is_number, CodeNumber, not_numbered, numbered, value_error,
  of_int, code_number, collect, used_numbers, is_used, next_number, has_code, code_text, no_code,
  unreadable_code, allocated, canonical_item_code, prefix_of, upper,
}
use risk_opportunity_manager.Server.Records.Codes.Shown.{show_padded-number, show_padded-is_number}

-- The number of an item code that the server writes reads back: a prefix letter in upper case, a
-- dash and the number, padded to three digits.
pub code_number-show_padded :
    (py : Digits) (prefix : Char) (n : ℕ)
    → upper (code prefix) ≡ code prefix
    → code_number py (code prefix) (codes (String.◌∷◌ prefix (String.◌∷◌ "-" (show_padded n))))
      ≡ numbered n
unfolding code_number
code_number-show_padded py prefix n h =
    rw (h, ==_refl (code prefix), show_padded-is_number py n) (ap of_int (show_padded-number py n))

collect-some :
    (o : CodeNumber) (more : Option (List ℕ)) (used : List ℕ)
    → collect o more ≡ some used
    → (rest : List ℕ) × (more ≡ some rest)
      × ((n : ℕ) → (o ≡ numbered n) ⊎ (is_used n rest ≡ true) → is_used n used ≡ true)
unfolding is_used
collect-some not_numbered more used h =
    (used, h, λ n k. elim k [ inl e ↦ absurd (cc e) | inr later ↦ later ])
collect-some value_error more used h = absurd (cc h)
collect-some (numbered m) none used h = absurd (cc h)
collect-some (numbered m) (some rest) used h =
    let same : m ∷ rest ≡ used = cc h in
    (
      rest,
      refl,
      λ n k.
          subst (λ u. is_used n u ≡ true) same
            (elim k [
              | inl e ↦ let here : m ≡ n = cc e in rw (here, ==_refl n) refl
              | inr later ↦ ground (arith, later)
            ]),
    )

has_code-used :
    (py : Digits) (prefix n : ℕ) (s : String) (existing : List String) (used : List ℕ)
    → code_number py prefix (codes s) ≡ numbered n
    → has_code s existing ≡ true
    → used_numbers py prefix existing ≡ some used
    → is_used n used ≡ true
unfolding has_code used_numbers
has_code-used py prefix n s [] used h k u = cc k
has_code-used py prefix n s (c ∷ rest) used h k u =
    let (later, more, takes) =
      collect-some (code_number py prefix (codes c)) (used_numbers py prefix rest) used u in
    takes n (elim (Bool-cases (str_eq c s)) [
      | inl same ↦ inl (ap (λ x. code_number py prefix (codes x)) ((eq_iff c s).0 same) ∙ h)
      | inr other ↦ inr (has_code-used py prefix n s rest later h (rw other at k) more)
    ])

-- A code of the prefix whose suffix str.isdigit takes and int() does not read.
abbrev pub IsUnreadable : Digits → ℕ → List ℕ → Type 0
IsUnreadable py prefix cs =
    (c : ℕ) × (suffix : List ℕ) × (cs ≡ c ∷ 45 ∷ suffix)
    × (upper c ≡ prefix)
    × (is_number py suffix ≡ true)
    × (number_from py 0 suffix ≡ none)

of_int-none : (o : Option ℕ) → of_int o ≡ value_error → o ≡ none
of_int-none none h = refl
of_int-none (some n) h = absurd (cc h)

code_number-IsUnreadable :
    (py : Digits) (prefix : ℕ) (cs : List ℕ)
    → code_number py prefix cs ≡ value_error
    → IsUnreadable py prefix cs
unfolding code_number
code_number-IsUnreadable py prefix [] h = absurd (cc h)
code_number-IsUnreadable py prefix (c ∷ []) h = absurd (cc h)
code_number-IsUnreadable py prefix (c ∷ d ∷ suffix) h =
    elim (Bool-cases (upper c == prefix && d == 45 && is_number py suffix)) [
      | inr fails ↦ absurd (cc (rw fails at h))
      | inl passes ↦
          let dash : d ≡ 45 = ground (arith, passes) in
          (
            c,
            suffix,
            ap (λ x. c ∷ x ∷ suffix) dash,
            ground (arith, passes),
            ground (arith, passes),
            of_int-none (number_from py 0 suffix) (rw passes at h),
          )
    ]

collect-none :
    (o : CodeNumber) (more : Option (List ℕ))
    → collect o more ≡ none
    → (o ≡ value_error) ⊎ (more ≡ none)
collect-none not_numbered more h = inr h
collect-none value_error more h = inl refl
collect-none (numbered n) none h = inr refl
collect-none (numbered n) (some used) h = absurd (cc h)

used_numbers-none :
    (py : Digits) (prefix : ℕ) (existing : List String)
    → used_numbers py prefix existing ≡ none
    → Any (λ s. IsUnreadable py prefix (codes s)) existing
unfolding used_numbers
used_numbers-none py prefix [] h = cc h
used_numbers-none py prefix (c ∷ rest) h =
    elim (collect-none (code_number py prefix (codes c)) (used_numbers py prefix rest) h) [
      | inl here ↦ inl (code_number-IsUnreadable py prefix (codes c) here)
      | inr later ↦ inr (used_numbers-none py prefix rest later)
    ]

-- the numbers from n on that are used
abbrev above : ℕ → List ℕ → ℕ
above n used = count (λ m. leb n m) used

above_mono : (n : ℕ) (used : List ℕ) → above (n + 1) used ≤ above n used
unfolding count
above_mono n [] = omega arith
above_mono n (m ∷ used) = ground (arith, above_mono n used)

above_step : (n : ℕ) (used : List ℕ) → is_used n used ≡ true → above (n + 1) used < above n used
unfolding count is_used
above_step n [] h = cc h
above_step n (m ∷ used) h = ground (arith, above_step n used, above_mono n used)

above-length : (n : ℕ) (used : List ℕ) → above n used ≤ length used
unfolding count
above-length n [] = omega arith
above-length n (m ∷ used) = ground (arith, above-length n used)

next_number_free :
    (f n : ℕ) (used : List ℕ)
    → above n used < f
    → (m : ℕ) × (next_number f n used ≡ some m)
      × (n ≤ m)
      × (is_used m used ≡ false)
      × ((k : ℕ) → n ≤ k → k < m → is_used k used ≡ true)
unfolding next_number
next_number_free zero n used h = elim h [ ]
next_number_free (suc f) n used h = elim (Bool-cases (is_used n used)) [
  | inr free ↦
      (n, rw (next_number, free) refl, omega arith, free, λ k lo hi. absurd (omega (arith, lo, hi)))
  | inl taken ↦
      let (m, found, lo, free, below) =
        next_number_free f (n + 1) used (omega (arith, h, above_step n used taken)) in
      (
        m,
        rw (next_number, taken) found,
        omega (arith, lo),
        free,
        λ k from_n to_m. used_between k (at_or_above n k from_n) taken below to_m,
      )
]
  where
    at_or_above : (a b : ℕ) → a ≤ b → (a ≡ b) ⊎ (a + 1 ≤ b)
    at_or_above a b le = omega (arith, le)

    used_between :
        {m : ℕ} (k : ℕ)
        → (n ≡ k) ⊎ (n + 1 ≤ k)
        → is_used n used ≡ true
        → ((j : ℕ) → n + 1 ≤ j → j < m → is_used j used ≡ true)
        → k < m
        → is_used k used ≡ true
    used_between k (inl same) here below to_m = subst (λ j. is_used j used ≡ true) same here
    used_between k (inr more) here below to_m = below k more to_m

prefix_upper : (e : Entity) → upper (code (prefix_of e)) ≡ code (prefix_of e)
prefix_upper risk = refl
prefix_upper Entity.opportunity = refl
prefix_upper Entity.action = refl
prefix_upper Entity.assessment = refl
prefix_upper Entity.helpdesk_ticket = refl

-- The code that a new item gets: none if it asks for none; otherwise the allocation ends with a
-- code that no item of the project has, the code asked for if that is free; or it raises a
-- ValueError, only if the code asked for is taken and an item of the project has a code of the
-- prefix whose suffix str.isdigit takes and int() does not read.
pub canonical_item_code_free :
    (py : Digits) (existing : List String) (e : Entity) (requested : String)
    → ((strip_text requested ≡ "") × (canonical_item_code py existing e requested ≡ no_code))
      ⊎ ((c : String) × (canonical_item_code py existing e requested ≡ code_text c)
          × (has_code c existing ≡ false)
          × ((has_code (strip_text requested) existing ≡ true) ⊎ (c ≡ strip_text requested)))
      ⊎ ((canonical_item_code py existing e requested ≡ unreadable_code)
          × (has_code (strip_text requested) existing ≡ true)
          × Any (λ s. IsUnreadable py (code (prefix_of e)) (codes s)) existing)
unfolding canonical_item_code
canonical_item_code_free py existing e requested =
    let p = prefix_of e in
    elim (Bool-cases (str_eq (strip_text requested) "")) [
      | inl empty ↦
          inl ((eq_iff (strip_text requested) "").0 empty, rw (canonical_item_code, empty) refl)
      | inr asked ↦ elim (Bool-cases (has_code (strip_text requested) existing)) [
        | inr free ↦
            inr (
              inl
                (strip_text requested, rw (canonical_item_code, asked, free) refl, free, inr refl))
        | inl taken ↦ elim (Option-cases (used_numbers py (code p) existing)) [
          | inl fails ↦ inr (
              inr (
                rw (canonical_item_code, asked, taken, fails) refl,
                taken,
                used_numbers-none py (code p) existing fails,
              ))
          | inr (used, read) ↦
              let (n, found, lo, free, below) =
                next_number_free (length used + 2) 1 used (omega (arith, above-length 1 used)) in
              let c = String.◌∷◌ p (String.◌∷◌ "-" (show_padded n)) in
              inr (
                inl (
                  c,
                  rw (canonical_item_code, asked, taken, read, found, allocated) refl,
                  unused n c used (code_number-show_padded py p n (prefix_upper e)) read free,
                  inl taken,
                ))
        ]
      ]
    ]
  where
    unused :
        (n : ℕ) (c : String) (used : List ℕ)
        → code_number py (code (prefix_of e)) (codes c) ≡ numbered n
        → used_numbers py (code (prefix_of e)) existing ≡ some used
        → is_used n used ≡ false
        → has_code c existing ≡ false
    unused n c used reads read free = elim (Bool-cases (has_code c existing)) [
      | inr absent ↦ absent
      | inl present ↦
          cc (has_code-used py (code (prefix_of e)) n c existing used reads present read, free)
    ]
