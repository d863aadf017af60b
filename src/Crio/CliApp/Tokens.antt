-- ===== src/Crio/CliApp/Tokens.antt =====
-- tokenize, against the words of a line.
use ts_c_riocpp.Common.{
  ℕ, zero, suc, ◌+◌, ◌-◌, ◌<◌, ◌≡◌, ◌≢◌, ◌⊎◌, inl, inr, refl, sym, ap, ◌∙◌, List, [], ◌∷◌, ◌++◌,
  append-nil, append_assoc, arith, All, some, none, false, ltb, ◌==◌, if◌then◌else◌, length,
  length-append, take, take_front, drop_front, Bool-cases, ==_self, ==_false, ==_iff, ltb-false,
  lt→ltb,
}
use ts_c_riocpp.Crio.CliApp.{String, starts_with, find_in, find, substr, tokens_loop, tokenize}

-- A character before the first word of a list.
abbrev prepend : ℕ → List String → List String
prepend x [] = (x ∷ []) ∷ []
prepend x (t ∷ ts) = (x ∷ t) ∷ ts

-- The words of a line that end at each delimiter, and the last one, if anything stands behind the last
-- delimiter.
abbrev pub fields : ℕ → String → List String
fields d [] = []
fields d (x ∷ xs) = if x == d then [] ∷ fields d xs else prepend x (fields d xs)

abbrev Without : ℕ → String → Type 0
Without d s = All (λ (x : ℕ). x ≢ d) s

-- A line has no delimiter, or it has a first one.
cut :
    (d : ℕ) (s : String)
    → Without d s ⊎ ((tok : String) × (rest : String) × (s ≡ tok ++ (d ∷ rest)) × Without d tok)
cut d [] = inl tt
cut d (x ∷ xs) = elim (Bool-cases (x == d)) [
  | inl here ↦ inr ([], xs, ap (λ y. y ∷ xs) {y = d} (omega (arith, (==_iff x d).0 here)), tt)
  | inr other ↦ elim (cut d xs) [
    | inl none_left ↦ inl (ground (arith, other), none_left)
    | inr (tok, rest, e, h) ↦ inr (x ∷ tok, rest, ap (λ t. x ∷ t) e, (ground (arith, other), h))
  ]
]

find_in_first :
    (d pos : ℕ) (tok rest : String)
    → Without d tok
    → find_in (d ∷ []) pos (tok ++ (d ∷ rest)) ≡ some (pos + length tok)
unfolding find_in starts_with
find_in_first d pos [] rest h = rw (==_self d) (ap some (omega arith))
find_in_first d pos (x ∷ tok) rest (hx, h) =
    rw (==_false d x (λ e. hx (sym e)), find_in_first d (pos + 1) tok rest h)
      (ap some (omega arith))

find_in_nothing : (d pos : ℕ) (s : String) → Without d s → find_in (d ∷ []) pos s ≡ none
unfolding find_in starts_with
find_in_nothing d pos [] h = refl
find_in_nothing d pos (x ∷ s) (hx, h) =
    rw (==_false d x (λ e. hx (sym e)), find_in_nothing d (pos + 1) s h) refl

fields_first :
    (d : ℕ) (tok rest : String) → Without d tok → fields d (tok ++ (d ∷ rest)) ≡ tok ∷ fields d rest
fields_first d [] rest h = rw (==_self d) refl
fields_first d (x ∷ tok) rest (hx, h) = rw (==_false x d hx, fields_first d tok rest h) refl

fields_last : (d x : ℕ) (s : String) → Without d (x ∷ s) → fields d (x ∷ s) ≡ (x ∷ s) ∷ []
fields_last d x [] (hx, h) = rw (==_false x d hx) refl
fields_last d x (y ∷ s) (hx, h) = rw (==_false x d hx, fields_last d y s h) refl

module _ (d : ℕ) where
  find_first :
      (front tok rest : String)
      → Without d tok
      → find (front ++ (tok ++ (d ∷ rest))) (d ∷ []) (length front)
        ≡ some (length front + length tok)
  unfolding find
  find_first front tok rest h =
      rw
        (
          ltb-false (length (front ++ (tok ++ (d ∷ rest)))) (length front)
              (omega (arith, length-append front (tok ++ (d ∷ rest)))),
          drop_front front (tok ++ (d ∷ rest)) (length front) refl,
        )
        (find_in_first d (length front) tok rest h)

  find_nothing : (front s : String) → Without d s → find (front ++ s) (d ∷ []) (length front) ≡ none
  unfolding find
  find_nothing front s h =
      rw
        (
          ltb-false (length (front ++ s)) (length front) (omega (arith, length-append front s)),
          drop_front front s (length front) refl,
        )
        (find_in_nothing d (length front) s h)

  -- The part behind `front`.
  substr_lem :
      (front tok back : String) (n : ℕ)
      → n ≡ length tok
      → substr (front ++ (tok ++ back)) (length front) n ≡ tok
  substr_lem front tok back n e =
      rw (drop_front front (tok ++ back) (length front) refl) (take_front tok back n e)

  substr_last :
      (front s : String)
      → substr (front ++ s) (length front) (length (front ++ s) - length front) ≡ s
  substr_last front s = rw (drop_front front s (length front) refl) (
      ap (take (length (front ++ s) - length front)) (sym (append-nil s))
      ∙ take_front s [] _ (omega (arith, length-append front s)))

  last_round :
      (fuel : ℕ) (front s : String) (tokens : List String)
      → Without d s
      → tokens_loop (suc fuel) (front ++ s) (d ∷ []) (length front) tokens
        ≡ some (tokens ++ fields d s)
  unfolding tokens_loop
  last_round fuel front [] tokens h =
      rw (find_nothing front [] h, tokens_loop, nothing_left, append-nil) refl
    where
      nothing_left : ltb (length front) (length (front ++ [])) ≡ false
      nothing_left =
          ltb-false (length front) (length (front ++ [])) (omega (arith, length-append front []))
  last_round fuel front (x ∷ s) tokens h =
      rw
        (
          find_nothing front (x ∷ s) h,
          tokens_loop,
          lt→ltb (length front) (length (front ++ (x ∷ s)))
              (omega (arith, length-append front (x ∷ s))),
          substr_last front (x ∷ s),
          fields_last d x s h,
        )
        refl

  one_round :
      (fuel : ℕ) (front tok rest : String) (tokens : List String)
      → Without d tok
      → let input = front ++ (tok ++ (d ∷ rest)) in
        tokens_loop (suc fuel) input (d ∷ []) (length front) tokens
        ≡ tokens_loop fuel input (d ∷ []) (length front + length tok + 1) (tokens ++ (tok ∷ []))
  unfolding tokens_loop
  one_round fuel front tok rest tokens h =
      rw
        (
          find_first front tok rest h,
          tokens_loop,
          substr_lem front tok (d ∷ rest) (length front + length tok - length front) (omega arith),
        )
        refl

  loop_lem :
      (fuel : ℕ) (front rest : String) (tokens : List String)
      → length rest < fuel
      → tokens_loop fuel (front ++ rest) (d ∷ []) (length front) tokens
        ≡ some (tokens ++ fields d rest)
  loop_lem zero front rest tokens enough = absurd (omega arith)
  loop_lem (suc fuel) front rest tokens enough = elim (cut d rest) [
    | inl h ↦ last_round fuel front rest tokens h
    | inr (tok, more, e, h) ↦ rw e (
        one_round fuel front tok more tokens h
        ∙ (λ i. tokens_loop fuel (moved tok more i) (d ∷ []) (place tok i) (tokens ++ (tok ∷ [])))
        ∙ loop_lem fuel (front ++ (tok ++ (d ∷ []))) more (tokens ++ (tok ∷ []))
            (omega (arith, ap length e, length-append tok (d ∷ more)))
        ∙ ap some (
            append_assoc tokens (tok ∷ []) (fields d more)
            ∙ ap (λ t. tokens ++ t) (sym (fields_first d tok more h))))
  ]
    where
      moved :
          (tok more : String) → front ++ (tok ++ (d ∷ more)) ≡ (front ++ (tok ++ (d ∷ []))) ++ more
      moved tok more =
          ap (λ t. front ++ t) (sym (append_assoc tok (d ∷ []) more))
          ∙ sym (append_assoc front (tok ++ (d ∷ [])) more)

      place : (tok : String) → length front + length tok + 1 ≡ length (front ++ (tok ++ (d ∷ [])))
      place tok = omega (arith, length-append front (tok ++ (d ∷ [])), length-append tok (d ∷ []))

-- With a delimiter of one character, and more rounds than the line has characters, tokenize ends with
-- the words of the line: a word ends at each delimiter, also one without characters, and what stands
-- behind the last delimiter is a word if it is not empty.
pub tokenize_lem :
    (fuel d : ℕ) (input : String)
    → length input < fuel
    → tokenize fuel input (d ∷ []) ≡ some (fields d input)
unfolding tokenize
tokenize_lem fuel d [] enough = refl
tokenize_lem fuel d (x ∷ s) enough =
    rw (lt→ltb 0 (suc (length s)) (omega arith)) (loop_lem d fuel [] (x ∷ s) [] enough)
