-- ===== src/Text/Order.antt =====
-- The order of byte strings is a strict total order.
use ngd_ngg_scheduling.Base.{◌≡◌, refl, ◌⊎◌, inl, inr, true, false, [], ◌∷◌, arith}
use ngd_ngg_scheduling.Text.{Text, text_lt}

pub text_lt_irrefl : (s : Text) → text_lt s s ≡ false
unfolding text_lt
text_lt_irrefl [] = refl
text_lt_irrefl (x ∷ s) = ground (arith, text_lt_irrefl s)

pub text_lt_trans : (s t u : Text) → text_lt s t ≡ true → text_lt t u ≡ true → text_lt s u ≡ true
unfolding text_lt
text_lt_trans s t [] h k = cc
text_lt_trans s [] (z ∷ u) h k = cc
text_lt_trans [] (y ∷ t) (z ∷ u) h k = refl
text_lt_trans (x ∷ s) (y ∷ t) (z ∷ u) h k = ground (arith, text_lt_trans s t u)

-- Of two different texts one is smaller.
pub text_lt_total : (s t : Text) → (s ≡ t) ⊎ ((text_lt s t ≡ true) ⊎ (text_lt t s ≡ true))
unfolding text_lt
text_lt_total [] [] = inl refl
text_lt_total [] (y ∷ t) = inr (inl refl)
text_lt_total (x ∷ s) [] = inr (inr refl)
text_lt_total (x ∷ s) (y ∷ t) = ground (arith, text_lt_total s t)

pub text_lt_asymm : (s t : Text) → text_lt s t ≡ true → text_lt t s ≡ false
text_lt_asymm s t h = ground (arith, text_lt_trans s t s, text_lt_irrefl s)
