-- ===== src/Sets/Canonical.antt =====
-- `unique_sorted` is a canonical form: it depends only on which trimmed, non-empty strings its
-- input holds.
use ngd_ngg_scheduling.Base.{
  ◌≡◌, refl, sym, ap, ap₂, ◌∙◌, ◌≢◌, ◌↔◌, ◌⊎◌, inl, inr, true, false, List, [], ◌∷◌, All-Elem, Elem,
  Bool-cases, list_eq_iff,
}
use ngd_ngg_scheduling.Text.{Text, text_lt, trim_space, is_empty, text_Eq}
use ngd_ngg_scheduling.Text.Order.{text_lt_irrefl, text_lt_asymm}
use ngd_ngg_scheduling.Sets.{has_text, add_text, trimmed_set, unique_sorted, equal_set}
use ngd_ngg_scheduling.Sets.Sorting.{
  IsIncreasing, IsSetList, has_text-Elem, Elem-sort_strings, sort_strings-IsIncreasing,
}

-- Some value of the list is the text once its white space is trimmed.
abbrev pub IsTrimmedOf : Text → List Text → Type 0
IsTrimmedOf v values = (w : Text) × Elem w values × (trim_space w ≡ v)

pub add_text-IsSetList : (v : Text) (set : List Text) → IsSetList set → IsSetList (add_text v set)
unfolding add_text
add_text-IsSetList v set h = elim (Bool-cases (has_text v set)) [
  | inl old ↦ rw old h
  | inr new ↦ rw new (new, h)
]

old_Elem :
    (u v : Text) (set : List Text) → has_text v set ≡ true → (u ≡ v) ⊎ Elem u set → Elem u set
old_Elem u v set old (inl e) = rw e (has_text-Elem v set old)
old_Elem u v set old (inr m) = m

pub Elem-add_text :
    (u v : Text) (set : List Text) → Elem u (add_text v set) ↔ ((u ≡ v) ⊎ Elem u set)
unfolding add_text
Elem-add_text u v set = elim (Bool-cases (has_text v set)) [
  | inl old ↦ rw old (λ m. inr m, old_Elem u v set old)
  | inr new ↦ rw new (λ m. m, λ m. m)
]

trimmed_set-IsSetList : (xs : List Text) → IsSetList (trimmed_set xs)
unfolding trimmed_set
trimmed_set-IsSetList [] = tt
trimmed_set-IsSetList (x ∷ xs) = elim (Bool-cases (is_empty (trim_space x))) [
  | inl e ↦ rw e (trimmed_set-IsSetList xs)
  | inr n ↦ rw n (add_text-IsSetList (trim_space x) (trimmed_set xs) (trimmed_set-IsSetList xs))
]

is_empty-ne : (v : Text) → is_empty v ≡ false → v ≢ []
is_empty-ne [] h = cc
is_empty-ne (x ∷ v) h = λ e. cc

is_empty-eq : (v : Text) → is_empty v ≡ true → v ≡ []
is_empty-eq [] h = refl
is_empty-eq (x ∷ v) h = cc

Elem-trimmed_set :
    (v : Text) (xs : List Text) → Elem v (trimmed_set xs) → (v ≢ []) × IsTrimmedOf v xs
unfolding trimmed_set
Elem-trimmed_set v [] m = absurd m
Elem-trimmed_set v (x ∷ xs) m = elim (Bool-cases (is_empty (trim_space x))) [
  | inl e ↦ later (Elem-trimmed_set v xs (rw e at m))
  | inr n ↦ elim ((Elem-add_text v (trim_space x) (trimmed_set xs)).0 (rw n at m)) [
    | inl e ↦ (rw e (is_empty-ne (trim_space x) n), (x, inl refl, sym e))
    | inr k ↦ later (Elem-trimmed_set v xs k)
  ]
]
  where
    later : (v ≢ []) × IsTrimmedOf v xs → (v ≢ []) × IsTrimmedOf v (x ∷ xs)
    later (n, (w, k, e)) = (n, (w, inr k, e))

trimmed_set-Elem : (v : Text) (xs : List Text) → v ≢ [] → IsTrimmedOf v xs → Elem v (trimmed_set xs)
unfolding trimmed_set
trimmed_set-Elem v [] n (w, m, e) = absurd m
trimmed_set-Elem v (x ∷ xs) n (w, inl i, e) = elim (Bool-cases (is_empty (trim_space x))) [
  | inl none_left ↦ absurd (n (sym e ∙ ap trim_space i ∙ is_empty-eq (trim_space x) none_left))
  | inr some_left ↦
      rw some_left
        ((Elem-add_text v (trim_space x) (trimmed_set xs)).1 (inl (sym e ∙ ap trim_space i)))
]
trimmed_set-Elem v (x ∷ xs) n (w, inr m, e) = elim (Bool-cases (is_empty (trim_space x))) [
  | inl none_left ↦ rw none_left (trimmed_set-Elem v xs n (w, m, e))
  | inr some_left ↦ rw some_left (
      (Elem-add_text v (trim_space x) (trimmed_set xs)).1 (inr (trimmed_set-Elem v xs n (w, m, e))))
]

-- The least element of one list is that of the other.
heads_eq :
    (x y : Text) (xs ys : List Text)
    → IsIncreasing (x ∷ xs)
    → IsIncreasing (y ∷ ys)
    → Elem x (y ∷ ys)
    → Elem y (x ∷ xs)
    → x ≡ y
heads_eq x y xs ys h k (inl e) m = e
heads_eq x y xs ys h k (inr l) (inl e) = sym e
heads_eq x y xs ys h k (inr l) (inr m) = absurd (
    cc (
      text_lt_asymm x y (All-Elem (λ z. text_lt x z ≡ true) y xs h.0 m),
      All-Elem (λ z. text_lt y z ≡ true) x ys k.0 l,
    ))

-- What the list holds beside its head is in the other list's tail.
tail-Elem :
    (x v : Text) (xs ys : List Text)
    → IsIncreasing (x ∷ xs)
    → Elem v xs
    → Elem v (x ∷ ys)
    → Elem v ys
tail-Elem x v xs ys h m (inl e) =
    absurd (cc (text_lt_irrefl x, rw e at (All-Elem (λ z. text_lt x z ≡ true) v xs h.0 m)))
tail-Elem x v xs ys h m (inr l) = l

pub increasing_unique :
    (xs ys : List Text)
    → IsIncreasing xs
    → IsIncreasing ys
    → ((v : Text) → Elem v xs → Elem v ys)
    → ((v : Text) → Elem v ys → Elem v xs)
    → xs ≡ ys
increasing_unique [] [] h k f g = refl
increasing_unique [] (y ∷ ys) h k f g = absurd (g y (inl refl))
increasing_unique (x ∷ xs) [] h k f g = absurd (f x (inl refl))
increasing_unique (x ∷ xs) (y ∷ ys) h k f g = ap₂ ◌∷◌ same (
    increasing_unique xs ys h.1 k.1 (λ v m. tail-Elem x v xs ys h m (rw same (f v (inr m))))
      (λ v m. tail-Elem y v ys xs k m (rw (← same) (g v (inr m)))))
  where
    same : x ≡ y
    same = heads_eq x y xs ys h k (f x (inl refl)) (g y (inl refl))

-- The list is strictly increasing in byte order, and it holds exactly the non-empty strings that
-- some value becomes when its white space is trimmed.
pub unique_sorted_lem :
    (values : List Text)
    → IsIncreasing (unique_sorted values)
      × ((v : Text) → Elem v (unique_sorted values) ↔ ((v ≢ []) × IsTrimmedOf v values))
unfolding unique_sorted
unique_sorted_lem values = (
  sort_strings-IsIncreasing (trimmed_set values) (trimmed_set-IsSetList values),
  λ v. (
    λ m. Elem-trimmed_set v values ((Elem-sort_strings v (trimmed_set values)).0 m),
    λ h. (Elem-sort_strings v (trimmed_set values)).1 (trimmed_set-Elem v values h.0 h.1),
  ),
)

-- The trimmed, non-empty strings of the one list are those of the other.
abbrev pub SameSet : List Text → List Text → Type 0
SameSet left right = (v : Text) → v ≢ [] → IsTrimmedOf v left ↔ IsTrimmedOf v right

-- Two lists of values have the same sorted set exactly when they hold the same trimmed, non-empty
-- strings, whatever their order and repetitions.
pub unique_sorted-eq_iff :
    (left right : List Text) → (unique_sorted left ≡ unique_sorted right) ↔ SameSet left right
unique_sorted-eq_iff left right = (forward, backward)
  where
    l : (v : Text) → Elem v (unique_sorted left) ↔ ((v ≢ []) × IsTrimmedOf v left)
    l = (unique_sorted_lem left).1

    r : (v : Text) → Elem v (unique_sorted right) ↔ ((v ≢ []) × IsTrimmedOf v right)
    r = (unique_sorted_lem right).1

    forward : unique_sorted left ≡ unique_sorted right → SameSet left right
    forward e v n =
        (λ t. ((r v).0 (rw (← e) ((l v).1 (n, t)))).1, λ t. ((l v).0 (rw e ((r v).1 (n, t)))).1)

    backward : SameSet left right → unique_sorted left ≡ unique_sorted right
    backward s =
        increasing_unique (unique_sorted left) (unique_sorted right) (unique_sorted_lem left).0
          (unique_sorted_lem right).0 (λ v m. let h = (l v).0 m in (r v).1 (h.0, (s v h.0).0 h.1))
          (λ v m. let h = (r v).0 m in (l v).1 (h.0, (s v h.0).1 h.1))

-- `equal_set` answers true exactly when both lists hold the same trimmed, non-empty strings.
pub equal_set_iff : (left right : List Text) → (equal_set left right ≡ true) ↔ SameSet left right
unfolding equal_set
equal_set_iff left right =
    let e = list_eq_iff ⦃e = text_Eq⦄ (unique_sorted left) (unique_sorted right) in
    let u = unique_sorted-eq_iff left right in (λ h. u.0 (e.0 h), λ s. e.1 (u.1 s))
