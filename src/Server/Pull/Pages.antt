-- ===== src/Server/Pull/Pages.antt =====
-- One page of sync/pull.py, against the rows that are left of the feed.
use risk_opportunity_manager.Prelude.{
  ℕ, zero, suc, ◌≤◌, ◌<◌, ◌≡◌, refl, sym, ◌∙◌, ap, true, false, ◌⊎◌, inl, inr, Option, none, some,
  List, [], ◌∷◌, ◌++◌, arith, ltb, Bool-cases, take, length, length-append, ltb→lt, subst,
}
use risk_opportunity_manager.Server.Pull.{window, last_sequence, page_after, Page}
use risk_opportunity_manager.Server.Pull.Windows.{
  IsStrict, last-le, window-All-upto, All-take, taken_last-ge, window_split,
}

module _ {A : Type 0} where
  short_take : (l : ℕ) (xs : List A) → length (take (suc l) xs) ≤ l → take (suc l) xs ≡ xs
  short_take l [] h = refl
  short_take zero (x ∷ xs) h = ground (arith, h)
  short_take (suc l) (x ∷ xs) h = ap (λ r. x ∷ r) (short_take l xs (omega (arith, h)))

  take-take : (l : ℕ) (xs : List A) → take l (take (suc l) xs) ≡ take l xs
  take-take zero xs = refl
  take-take (suc l) [] = refl
  take-take (suc l) (x ∷ xs) = ap (λ r. x ∷ r) (take-take l xs)

  length-take-long : (l : ℕ) (xs : List A) → l < length (take (suc l) xs) → length (take l xs) ≡ l
  length-take-long zero xs h = refl
  length-take-long (suc l) [] h = omega (arith, h)
  length-take-long (suc l) (x ∷ xs) h = ap suc (length-take-long l xs (omega (arith, h)))

  length-take_mono : (l : ℕ) (xs : List A) → length (take l xs) ≤ length xs
  length-take_mono zero xs = omega arith
  length-take_mono (suc l) [] = omega arith
  length-take_mono (suc l) (x ∷ xs) = omega (arith, length-take_mono l xs)

  take-length : (xs : List A) → take (length xs) xs ≡ xs
  take-length [] = refl
  take-length (x ∷ xs) = ap (λ r. x ∷ r) (take-length xs)

  suffix_empty : (xs ys : List A) → xs ++ ys ≡ xs → ys ≡ []
  suffix_empty xs [] h = refl
  suffix_empty xs (y ∷ ys) h =
      ground (arith, length-append xs (y ∷ ys), ap {A = List A} {B = ℕ} length h)

module _ {A : Type 0} (sequence : A → ℕ) where
  -- what a page promises: a prefix of the window that starts where the page before ended, a full
  -- page and more to come, or the end of the window
  abbrev pub IsPage : Option ℕ → ℕ → ℕ → List A → Page A → Type 0
  IsPage limit since snapshot ordered page =
      (page.rows ++ window sequence page.cursor snapshot ordered
        ≡ window sequence since snapshot ordered)
      × (since ≤ page.cursor)
      × (page.cursor ≤ snapshot)
      × (((page.has_more ≡ true)
            × (limit ≡ some (length page.rows))
            × (0 < length (window sequence page.cursor snapshot ordered)))
          ⊎ ((page.has_more ≡ false) × (window sequence page.cursor snapshot ordered ≡ [])))

  taken_last-le :
      (s n k : ℕ) (xs : List A)
      → s ≤ n
      → last_sequence sequence s (take k (window sequence s n xs)) ≤ n
  taken_last-le s n k xs le = last-le sequence n s (take k (window sequence s n xs)) le (
      All-take sequence (λ y. sequence y ≤ n) k (window sequence s n xs)
        (window-All-upto sequence s n xs))

  -- all that is left fits into the page
  last_page :
      (s n k : ℕ) (xs : List A)
      → IsStrict sequence xs
      → s ≤ n
      → take k (window sequence s n xs) ≡ window sequence s n xs
      → (limit : Option ℕ)
      → IsPage limit s n xs (record {
        rows = take k (window sequence s n xs);
        has_more = false;
        cursor = last_sequence sequence s (take k (window sequence s n xs));
      })
  last_page s n k xs o le whole limit = (
    window_split sequence s n k xs o,
    taken_last-ge sequence s n k xs,
    taken_last-le s n k xs le,
    inr (
      refl,
      suffix_empty (take k (window sequence s n xs))
          (window sequence (last_sequence sequence s (take k (window sequence s n xs))) n xs)
          (window_split sequence s n k xs o ∙ sym whole),
    ),
  )

  more_left :
      (s n l : ℕ) (xs : List A)
      → IsStrict sequence xs
      → l < length (take (suc l) (window sequence s n xs))
      → 0
        < length (window sequence (last_sequence sequence s (take l (window sequence s n xs))) n xs)
  more_left s n l xs o more = omega (
    arith,
    length-append (take l (window sequence s n xs))
        (window sequence (last_sequence sequence s (take l (window sequence s n xs))) n xs),
    ap {A = List A} {B = ℕ} length (window_split sequence s n l xs o),
    length-take-long l (window sequence s n xs) more,
    length-take_mono (suc l) (window sequence s n xs),
  )

  full_page :
      (s n l : ℕ) (xs : List A)
      → IsStrict sequence xs
      → s ≤ n
      → l < length (take (suc l) (window sequence s n xs))
      → IsPage (some l) s n xs (record {
        rows = take l (window sequence s n xs);
        has_more = true;
        cursor = last_sequence sequence s (take l (window sequence s n xs));
      })
  full_page s n l xs o le more = (
    window_split sequence s n l xs o,
    taken_last-ge sequence s n l xs,
    taken_last-le s n l xs le,
    inl (
      refl,
      ap some (sym (length-take-long l (window sequence s n xs) more)),
      more_left s n l xs o more,
    ),
  )

  -- On rows with sequence numbers of their own in their order, from a start that is at most the
  -- snapshot: the rows of a page and the rows after its cursor are together the rows after the
  -- start, the cursor lies between the start and the snapshot, and either the page has more, is as
  -- long as the limit and leaves a row, or it has no more and leaves none.
  pub page_after_lem :
      (limit : Option ℕ) (s n : ℕ) (xs : List A)
      → IsStrict sequence xs
      → s ≤ n
      → IsPage limit s n xs (page_after sequence limit s n xs)
  unfolding page_after
  page_after_lem none s n xs o le =
      subst
        (λ rows.
          IsPage none s n xs
            (record { rows = rows; has_more = false; cursor = last_sequence sequence s rows }))
        (take-length (window sequence s n xs))
        (last_page s n (length (window sequence s n xs)) xs o le
          (take-length (window sequence s n xs)) none)
  page_after_lem (some l) s n xs o le =
      elim (Bool-cases (ltb l (length (take (suc l) (window sequence s n xs))))) [
        | inl more ↦
            rw (more, take-take l (window sequence s n xs))
              (full_page s n l xs o le (ltb→lt _ _ more))
        | inr last ↦ rw last (
            last_page s n (suc l) xs o le (short_take l (window sequence s n xs) (ground arith))
              (some l))
      ]
