-- ===== src/Tests/Names.antt =====
-- Runs of the names of grants and of the sets of strings.
use ngd_ngg_scheduling.Base.{ℕ, ◌≡◌, refl, ◌≤◌, zero, suc, List, [], ◌∷◌, ◌++◌, length, arith}
use ngd_ngg_scheduling.Text.{Text, lit}
use ngd_ngg_scheduling.Naming.{grant_name, max_name_length}
use ngd_ngg_scheduling.Naming.Grants.{
  EndsOtherwise, grant_name_bounds, grant_name-injective, grant_name_shared,
}

grant_name_bounds_example :
    (length (grant_name (lit "gpu-")) ≤ max_name_length)
    × EndsOtherwise 45 (grant_name (lit "gpu-"))
grant_name_bounds_example = grant_name_bounds (lit "gpu-")

abbrev gpu : Text
gpu = lit "gpu"

grant_name-injective_example : gpu ≡ gpu
grant_name-injective_example =
    grant_name-injective gpu gpu (omega arith) (λ h. cc) (λ h. omega arith) (omega arith) (λ h. cc)
      (λ h. omega arith) refl

-- 249 times the letter a
abbrev repeat : ℕ → Text
repeat zero = []
repeat (suc n) = 97 ∷ repeat n

grant_name_shared_example :
    grant_name (repeat 249 ++ lit "-1") ≡ grant_name (repeat 249 ++ lit "-2")
grant_name_shared_example =
    grant_name_shared (repeat 249) (lit "-1") (lit "-2") refl (λ h. cc) (λ h. cc)

abbrev leaves : List Text
leaves = lit "leaf-b" ∷ lit " leaf-a" ∷ [] ∷ lit "leaf-b" ∷ []
