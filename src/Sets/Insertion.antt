-- ===== src/Sets/Insertion.antt =====
-- A sort by insertion with a test on neighbours, for the calls of sort.Slice whose items are told
-- apart by the test.
use mathlib.Core.Path.{subst}
use mathlib.Core.List.{Permᴰ}
use ngd_ngg_scheduling.Base.{
  ◌≡◌, refl, ap, ◌∙◌, inl, inr, Bool, true, false, List, [], ◌∷◌, if◌then◌else◌, All, Bool-cases,
}

module _ {A : Type 0} (before : A → A → Bool) where
  unfoldable pub place_by : A → List A → List A
  place_by a [] = a ∷ []
  place_by a (m ∷ ms) = let rest = place_by a ms in if before m a then m ∷ rest else a ∷ m ∷ ms

  unfoldable pub sort_by : List A → List A
  sort_by [] = []
  sort_by (a ∷ rest) = place_by a (sort_by rest)

module _ {A : Type 0} where
  pub Permᴰ-All : (P : A → Type 0) {xs ys : List A} → Permᴰ xs ys → All P xs → All P ys
  Permᴰ-All P Permᴰ.nil h = tt
  Permᴰ-All P (Permᴰ.cons e d) h = (subst P e h.0, Permᴰ-All P d h.1)
  Permᴰ-All P (Permᴰ.swap e f) h = (subst P f h.1.0, (subst P e h.0, h.1.1))
  Permᴰ-All P (Permᴰ.trans d k) h = Permᴰ-All P k (Permᴰ-All P d h)

  -- No two elements are related.
  abbrev pub Pairwise : (A → A → Type 0) → List A → Type 0
  Pairwise R [] = Unit
  Pairwise R (x ∷ xs) = All (R x) xs × Pairwise R xs

  pub Permᴰ-Pairwise :
      (R : A → A → Type 0) {xs ys : List A}
      → ((a b : A) → R a b → R b a)
      → Permᴰ xs ys
      → Pairwise R xs
      → Pairwise R ys
  Permᴰ-Pairwise R s Permᴰ.nil h = tt
  Permᴰ-Pairwise R s (Permᴰ.cons {l₂ = l} e d) h =
      (subst (λ x. All (R x) l) e (Permᴰ-All (R _) d h.0), Permᴰ-Pairwise R s d h.1)
  Permᴰ-Pairwise R s (Permᴰ.swap {a = a} {b = b} {b' = b'} {l = l} e f) h =
      subst (λ x. Pairwise R (x ∷ b' ∷ l)) f
        (subst (λ y. Pairwise R (b ∷ y ∷ l)) e ((s a b h.0.0, h.1.0), (h.0.1, h.1.1)))
  Permᴰ-Pairwise R s (Permᴰ.trans d k) h = Permᴰ-Pairwise R s k (Permᴰ-Pairwise R s d h)

module _ {A : Type 0} (before : A → A → Bool) (Apart : A → A → Type 0)
    (apart_sym : (a b : A) → Apart a b → Apart b a)
    (asymm : (a b : A) → before a b ≡ true → before b a ≡ false)
    (connected : (a b : A) → Apart a b → before a b ≡ false → before b a ≡ true)
    (between : (m a b : A) → before m a ≡ true → before m b ≡ false → before b a ≡ true) where
  place_by_comm :
      (a b : A) (xs : List A)
      → Apart a b
      → place_by before a (place_by before b xs) ≡ place_by before b (place_by before a xs)
  unfolding place_by
  place_by_comm a b [] h = elim (Bool-cases (before b a)) [
    | inl e ↦ rw (e, asymm b a e) refl
    | inr e ↦ rw (e, connected b a (apart_sym a b h) e) refl
  ]
  place_by_comm a b (m ∷ ms) h = elim (Bool-cases (before m a)) [
    | inl e ↦ elim (Bool-cases (before m b)) [
      | inl f ↦ rw (e, f) (rw e (ap (◌∷◌ m) (place_by_comm a b ms h)))
      | inr f ↦ rw (e, f) (rw (between m a b e f, e) refl)
    ]
    | inr e ↦ elim (Bool-cases (before m b)) [
      | inl f ↦ rw (e, f) (rw (between m b a f e, e) refl)
      | inr f ↦ elim (Bool-cases (before b a)) [
        | inl g ↦ rw (e, f) (rw (g, asymm b a g, e) refl)
        | inr g ↦ rw (e, f) (rw (g, connected b a (apart_sym a b h) g) refl)
      ]
    ]
  ]

  -- Items that are told apart are sorted into one list, whatever their order was.
  pub sort_by-Permᴰ :
      {xs ys : List A} → Permᴰ xs ys → Pairwise Apart xs → sort_by before xs ≡ sort_by before ys
  unfolding sort_by
  sort_by-Permᴰ Permᴰ.nil h = refl
  sort_by-Permᴰ (Permᴰ.cons {l₁ = l₁} {l₂ = l₂} e d) h =
      ap (λ a. place_by before a (sort_by before l₁)) e
      ∙ ap (place_by before _) (sort_by-Permᴰ d h.1)
  sort_by-Permᴰ (Permᴰ.swap {a = a} {b = b} {b' = b'} {l = l} e f) h =
      place_by_comm a b (sort_by before l) h.0.0
      ∙ ap (λ x. place_by before b (place_by before x (sort_by before l))) e
      ∙ ap (λ x. place_by before x (place_by before b' (sort_by before l))) f
  sort_by-Permᴰ (Permᴰ.trans d k) h =
      sort_by-Permᴰ d h ∙ sort_by-Permᴰ k (Permᴰ-Pairwise Apart apart_sym d h)
