-- ===== src/Text/Trimmed.antt =====
-- strings.TrimSpace leaves nothing to trim.
use mathlib.Core.List.{reverse-append, reverse-reverse}
use mathlib.Core.Path.{subst}
use ngd_ngg_scheduling.Base.{
  ℕ, zero, suc, ◌≡◌, refl, sym, ap, ◌∙◌, inl, inr, [], ◌∷◌, ◌++◌, reverse, Option, none, arith,
  Option-cases,
}
use ngd_ngg_scheduling.Text.{Text, space_at, space_back, trim_front, trim_space}

trim_front_clean :
    (at : Text → Option ℕ) (k : ℕ) (s : Text) → at [] ≡ none → at (trim_front at k s) ≡ none
unfolding trim_front
trim_front_clean at k [] h = h
trim_front_clean at (suc k) (b ∷ s) h = trim_front_clean at k s h
trim_front_clean at zero (b ∷ s) h = elim (Option-cases (at (b ∷ s))) [
  | inl e ↦ rw (trim_front, e) e
  | inr (k, e) ↦ rw (trim_front, e) (trim_front_clean at k s h)
]

-- What is trimmed stands in front.
trim_front_rest :
    (at : Text → Option ℕ) (k : ℕ) (s : Text) → (p : Text) × (s ≡ p ++ trim_front at k s)
unfolding trim_front
trim_front_rest at k [] = ([], refl)
trim_front_rest at (suc k) (b ∷ s) = let (p, e) = trim_front_rest at k s in (b ∷ p, ap (◌∷◌ b) e)
trim_front_rest at zero (b ∷ s) = elim (Option-cases (at (b ∷ s))) [
  | inl e ↦ rw (trim_front, e) ([], refl)
  | inr (k, e) ↦ rw (trim_front, e) (let (p, f) = trim_front_rest at k s in (b ∷ p, ap (◌∷◌ b) f))
]

trim_front-none : (at : Text → Option ℕ) (s : Text) → at s ≡ none → trim_front at 0 s ≡ s
unfolding trim_front
trim_front-none at [] h = refl
trim_front-none at (b ∷ s) h = rw (trim_front, h) refl

-- A text that begins with no white space has no prefix that does.
space_at-prefix : (r t : Text) → space_at (r ++ t) ≡ none → space_at r ≡ none
unfolding space_at
space_at-prefix [] t h = refl
space_at-prefix (a ∷ []) [] h = h
space_at-prefix (a ∷ []) (b ∷ []) h = ground arith
space_at-prefix (a ∷ []) (b ∷ c ∷ t) h = ground arith
space_at-prefix (a ∷ b ∷ []) [] h = h
space_at-prefix (a ∷ b ∷ []) (c ∷ t) h = ground arith
space_at-prefix (a ∷ b ∷ c ∷ r) t h = h

space_at-nil : space_at [] ≡ none
unfolding space_at
space_at-nil = refl

space_back-nil : space_back [] ≡ none
unfolding space_back
space_back-nil = refl

-- Trimming what is trimmed changes nothing.
pub trim_space-trim_space : (s : Text) → trim_space (trim_space s) ≡ trim_space s
unfolding trim_space
trim_space-trim_space s =
    let a = trim_front space_at 0 s in
    let b = trim_front space_back 0 (reverse a) in
    let (p, e) = trim_front_rest space_back 0 (reverse a) in
    let parts : a ≡ reverse b ++ reverse p =
      sym (reverse-reverse a) ∙ ap reverse e ∙ reverse-append p b in
    let clean : space_at (reverse b) ≡ none =
      space_at-prefix (reverse b) (reverse p)
        (subst (λ t. space_at t ≡ none) parts (trim_front_clean space_at 0 s space_at-nil)) in
    ap (λ t. reverse (trim_front space_back 0 (reverse t)))
      (trim_front-none space_at (reverse b) clean)
    ∙ ap (λ t. reverse (trim_front space_back 0 t)) (reverse-reverse b)
    ∙ ap reverse
        (trim_front-none space_back b (trim_front_clean space_back 0 (reverse a) space_back-nil))
