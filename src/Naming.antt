-- ===== src/Naming.antt =====
-- The names that the controllers derive: grantName and shortHash of
-- prc/pkg/controller/prc_controller.go.
pub mod Grants
use ngd_ngg_scheduling.Base.{
  ℕ, suc, ◌+◌, Bool, true, false, List, [], ◌∷◌, ◌++◌, reverse, ltb, nat_eq, if◌then◌else◌, length,
  take, drop,
}
use ngd_ngg_scheduling.Text.{Text, lit, has_prefix}

abbrev pub max_name_length : ℕ
max_name_length = 253

-- Drops the byte from the front of a text as often as it stands there.
unfoldable pub skip_byte : ℕ → Text → Text
skip_byte b [] = []
skip_byte b (x ∷ s) = if nat_eq b x then skip_byte b s else x ∷ s

-- strings.TrimRight with one ASCII character
unfoldable pub trim_right_byte : ℕ → Text → Text
unfolding skip_byte
trim_right_byte b s = reverse (skip_byte b (reverse s))

-- `if len(result) > 253 { result = result[:253] }`
unfoldable pub cut_name : Text → Text
cut_name result =
    if ltb max_name_length (length result) then take max_name_length result else result

unfoldable pub grant_name : Text → Text
unfolding trim_right_byte cut_name
grant_name name = trim_right_byte b'-' (cut_name (lit "ngg-" ++ name))

unfoldable pub trim_prefix : Text → Text → Text
unfolding has_prefix
trim_prefix s p = if has_prefix s p then drop (length p) s else s

unfoldable pub short_hash : Text → Text
unfolding trim_prefix
short_hash value =
    let rest = trim_prefix value (lit "sha256:") in
    if ltb 8 (length rest) then take 8 rest else rest
