-- ===== src/Naming/Grants.antt =====
-- The name of a grant: its bound, and which demands share one.
use mathlib.Core.List.{reverse-reverse, reverse-cons}
use ngd_ngg_scheduling.Base.{
  ℕ, zero, suc, ◌+◌, ◌≤◌, ◌<◌, ◌≡◌, refl, sym, ap, ◌∙◌, ◌≢◌, inl, inr, true, false, [], ◌∷◌, ◌++◌,
  reverse, arith, ltb, nat_eq, if◌then◌else◌, length, length-append, take, Bool-cases,
}
use ngd_ngg_scheduling.Text.{Text, lit}
use ngd_ngg_scheduling.Naming.{max_name_length, skip_byte, trim_right_byte, cut_name, grant_name}

length-reverse : (s : Text) → length (reverse s) ≡ length s
length-reverse [] = refl
length-reverse (x ∷ s) =
    omega
      (arith, ap length (reverse-cons x s), length-append (reverse s) (x ∷ []), length-reverse s)

length-skip_byte : (b : ℕ) (s : Text) → length (skip_byte b s) ≤ length s
unfolding skip_byte
length-skip_byte b [] = omega arith
length-skip_byte b (x ∷ s) = ground (arith, length-skip_byte b s)

length-trim_right_byte : (b : ℕ) (s : Text) → length (trim_right_byte b s) ≤ length s
unfolding trim_right_byte
length-trim_right_byte b s = omega (
  arith,
  length-reverse (skip_byte b (reverse s)),
  length-skip_byte b (reverse s),
  length-reverse s,
)

length-take-le : (n : ℕ) (s : Text) → length (take n s) ≤ n
length-take-le (suc n) (x ∷ s) = omega (arith, length-take-le n s)
length-take-le zero s = omega arith
length-take-le (suc n) [] = omega arith

-- The text does not end with the byte.
abbrev pub EndsOtherwise : ℕ → Text → Type 0
EndsOtherwise b [] = Unit
EndsOtherwise b (x ∷ []) = b ≢ x
EndsOtherwise b (x ∷ y ∷ s) = EndsOtherwise b (y ∷ s)

EndsOtherwise-snoc : (b x : ℕ) (s : Text) → b ≢ x → EndsOtherwise b (s ++ (x ∷ []))
EndsOtherwise-snoc b x [] h = h
EndsOtherwise-snoc b x (y ∷ []) h = h
EndsOtherwise-snoc b x (y ∷ z ∷ s) h = EndsOtherwise-snoc b x (z ∷ s) h

snoc-ne : (b x : ℕ) (s : Text) → EndsOtherwise b (s ++ (x ∷ [])) → b ≢ x
snoc-ne b x [] h = h
snoc-ne b x (y ∷ []) h = h
snoc-ne b x (y ∷ z ∷ s) h = snoc-ne b x (z ∷ s) h

skip_byte-EndsOtherwise : (b : ℕ) (s : Text) → EndsOtherwise b (reverse (skip_byte b s))
unfolding skip_byte
skip_byte-EndsOtherwise b [] = tt
skip_byte-EndsOtherwise b (x ∷ s) = elim (Bool-cases (nat_eq b x)) [
  | inl same ↦ rw same (skip_byte-EndsOtherwise b s)
  | inr other ↦ rw other (rw (reverse-cons x s) (EndsOtherwise-snoc b x (reverse s) (ground arith)))
]

trim_right_byte-EndsOtherwise : (b : ℕ) (s : Text) → EndsOtherwise b (trim_right_byte b s)
unfolding trim_right_byte
trim_right_byte-EndsOtherwise b s = skip_byte-EndsOtherwise b (reverse s)

skip_byte_id : (b : ℕ) (s : Text) → EndsOtherwise b (reverse s) → skip_byte b s ≡ s
unfolding skip_byte
skip_byte_id b [] h = refl
skip_byte_id b (x ∷ s) h = ground (arith, snoc-ne b x (reverse s) (rw (reverse-cons x s) at h))

trim_right_byte_id : (b : ℕ) (s : Text) → EndsOtherwise b s → trim_right_byte b s ≡ s
unfolding trim_right_byte
trim_right_byte_id b s h =
    rw (skip_byte_id b (reverse s) (rw (reverse-reverse s) h)) (reverse-reverse s)

prefixed-EndsOtherwise :
    (name : Text) → name ≢ [] → EndsOtherwise b'-' name → EndsOtherwise b'-' (lit "ngg-" ++ name)
prefixed-EndsOtherwise [] n h = absurd (n refl)
prefixed-EndsOtherwise (x ∷ name) n h = h

length-cut-le : (n : ℕ) (s : Text) → length (if ltb n (length s) then take n s else s) ≤ n
length-cut-le n s = ground (arith, length-take-le n s)

length-cut_name : (s : Text) → length (cut_name s) ≤ max_name_length
unfolding cut_name
length-cut_name s = length-cut-le max_name_length s

-- The name of a grant has at most 253 bytes and does not end with a dash.
pub grant_name_bounds :
    (name : Text)
    → (length (grant_name name) ≤ max_name_length) × EndsOtherwise b'-' (grant_name name)
unfolding grant_name
grant_name_bounds name = (
  omega (
    arith,
    length-trim_right_byte b'-' (cut_name (lit "ngg-" ++ name)),
    length-cut_name (lit "ngg-" ++ name),
  ),
  trim_right_byte-EndsOtherwise b'-' (cut_name (lit "ngg-" ++ name)),
)

-- A name of at most 249 bytes that is not empty and does not end with a dash keeps all its bytes.
pub grant_name_exact :
    (name : Text)
    → length name ≤ 249
    → name ≢ []
    → EndsOtherwise b'-' name
    → grant_name name ≡ lit "ngg-" ++ name
unfolding grant_name
grant_name_exact name short filled ends =
    rw (fits (length name) short)
      (trim_right_byte_id b'-' (lit "ngg-" ++ name) (prefixed-EndsOtherwise name filled ends))
  where
    fits : (n : ℕ) → n ≤ 249 → ltb max_name_length (suc (suc (suc (suc n)))) ≡ false
    fits n h = ground arith

-- So two different demands with such names never share a grant.
pub grant_name-injective :
    (left right : Text)
    → length left ≤ 249
    → left ≢ []
    → EndsOtherwise b'-' left
    → length right ≤ 249
    → right ≢ []
    → EndsOtherwise b'-' right
    → grant_name left ≡ grant_name right
    → left ≡ right
grant_name-injective left right sl fl el sr fr er e =
    cc (e, grant_name_exact left sl fl el, grant_name_exact right sr fr er)

take-append : (n : ℕ) (s t : Text) → length s ≡ n → take n (s ++ t) ≡ s
take-append zero [] t h = refl
take-append zero (x ∷ s) t h = absurd (omega arith)
take-append (suc n) [] t h = absurd (omega arith)
take-append (suc n) (x ∷ s) t h = ap (◌∷◌ x) (take-append n s t (omega arith))

length_pos : (s : Text) → s ≢ [] → 0 < length s
length_pos [] n = absurd (n refl)
length_pos (x ∷ s) n = omega arith

is_long :
    (n k m : ℕ) → k + m ≡ n → k ≡ 249 → 0 < m → ltb max_name_length (suc (suc (suc (suc n)))) ≡ true
is_long n k m e exact p = ground arith

cut_name_long :
    (start rest : Text)
    → length start ≡ 249
    → rest ≢ []
    → cut_name (lit "ngg-" ++ (start ++ rest)) ≡ lit "ngg-" ++ start
unfolding cut_name
cut_name_long start rest exact n =
    rw
      (is_long (length (start ++ rest)) (length start) (length rest)
        (sym (length-append start rest)) exact (length_pos rest n))
      (ap (λ t. b'n' ∷ b'g' ∷ b'g' ∷ b'-' ∷ t) (take-append 249 start rest exact))

grant_name_cut :
    (start rest : Text)
    → length start ≡ 249
    → rest ≢ []
    → grant_name (start ++ rest) ≡ trim_right_byte b'-' (lit "ngg-" ++ start)
unfolding grant_name
grant_name_cut start rest exact n = ap (trim_right_byte b'-') (cut_name_long start rest exact n)

-- Past that bound the names are cut: two demands whose names begin with the same 249 bytes, and
-- are longer, have one grant between them.
pub grant_name_shared :
    (start left right : Text)
    → length start ≡ 249
    → left ≢ []
    → right ≢ []
    → grant_name (start ++ left) ≡ grant_name (start ++ right)
grant_name_shared start left right exact l r =
    grant_name_cut start left exact l ∙ sym (grant_name_cut start right exact r)
