-- ===== src/Sets/Sorting.antt =====
-- What `sort_strings` and the set operations keep.
use ngd_ngg_scheduling.Base.{
  ◌≡◌, ◌↔◌, ◌⊎◌, inl, inr, true, false, List, [], ◌∷◌, arith, All, Elem, ==_refl, ==_sound,
  Bool-cases, ◌==◌,
}
use ngd_ngg_scheduling.Text.{Text, text_lt, text_Eq}
use ngd_ngg_scheduling.Text.Order.{text_lt_trans, text_lt_total, text_lt_asymm}
use ngd_ngg_scheduling.Sets.{has_text, place, sort_strings}

-- Each text is smaller than all that follow it.
abbrev pub IsIncreasing : List Text → Type 0
IsIncreasing [] = Unit
IsIncreasing (x ∷ xs) = All (λ y. text_lt x y ≡ true) xs × IsIncreasing xs

-- No text stands twice.
abbrev pub IsSetList : List Text → Type 0
IsSetList [] = Unit
IsSetList (x ∷ xs) = (has_text x xs ≡ false) × IsSetList xs

pub has_text-Elem : (v : Text) (xs : List Text) → has_text v xs ≡ true → Elem v xs
unfolding has_text
has_text-Elem v [] h = cc
has_text-Elem v (x ∷ xs) h = elim (Bool-cases (v == x)) [
  | inl same ↦ inl (==_sound v x same)
  | inr other ↦ inr (has_text-Elem v xs (rw other at h))
]

pub Elem-has_text : (v : Text) (xs : List Text) → Elem v xs → has_text v xs ≡ true
unfolding has_text
Elem-has_text v [] m = absurd m
Elem-has_text v (x ∷ xs) (inl e) = rw (e, ==_refl x)
Elem-has_text v (x ∷ xs) (inr m) = ground (arith, Elem-has_text v xs m)

pub Elem-place : (v x : Text) (ys : List Text) → Elem v (place x ys) ↔ ((v ≡ x) ⊎ Elem v ys)
unfolding place
Elem-place v x [] = (λ h. h, λ h. h)
Elem-place v x (y ∷ ys) = elim (Bool-cases (text_lt y x)) [
  | inl before ↦ rw before (grind (arith, Elem-place v x ys))
  | inr after ↦ rw after (λ h. h, λ h. h)
]

pub Elem-sort_strings : (v : Text) (xs : List Text) → Elem v (sort_strings xs) ↔ Elem v xs
unfolding sort_strings
Elem-sort_strings v [] = (λ h. h, λ h. h)
Elem-sort_strings v (x ∷ xs) =
    grind (arith, Elem-place v x (sort_strings xs), Elem-sort_strings v xs)

All-place : (P : Text → Type 0) (x : Text) (ys : List Text) → P x → All P ys → All P (place x ys)
unfolding place
All-place P x [] p h = (p, tt)
All-place P x (y ∷ ys) p h = elim (Bool-cases (text_lt y x)) [
  | inl before ↦ rw before (h.0, All-place P x ys p h.1)
  | inr after ↦ rw after (p, h)
]

All-lt :
    (x y : Text) (ys : List Text)
    → text_lt x y ≡ true
    → All (λ z. text_lt y z ≡ true) ys
    → All (λ z. text_lt x z ≡ true) ys
All-lt x y [] h k = tt
All-lt x y (z ∷ ys) h k = (text_lt_trans x y z h k.0, All-lt x y ys h k.1)

place-IsIncreasing :
    (x : Text) (ys : List Text) → (Elem x ys → ⊥) → IsIncreasing ys → IsIncreasing (place x ys)
unfolding place
place-IsIncreasing x [] new h = (tt, tt)
place-IsIncreasing x (y ∷ ys) new h = elim (text_lt_total x y) [
  | inl e ↦ absurd (new (inl e))
  | inr (inl lt) ↦ rw (text_lt_asymm x y lt) ((lt, All-lt x y ys lt h.0), h)
  | inr (inr gt) ↦ rw gt (
    All-place (λ z. text_lt y z ≡ true) x ys gt h.0,
    place-IsIncreasing x ys (λ m. new (inr m)) h.1,
  )
]

-- Sorting a set gives an increasing list.
pub sort_strings-IsIncreasing : (xs : List Text) → IsSetList xs → IsIncreasing (sort_strings xs)
unfolding sort_strings
sort_strings-IsIncreasing [] h = tt
sort_strings-IsIncreasing (x ∷ xs) h =
    place-IsIncreasing x (sort_strings xs)
      (λ m. cc (h.0, Elem-has_text x xs ((Elem-sort_strings x xs).0 m)))
      (sort_strings-IsIncreasing xs h.1)
