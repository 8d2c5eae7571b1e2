-- ===== src/Quantity/Units.antt =====
-- The values of one object of quantities: algorithm_server/go/algorithm/quantity.go
-- normalizeWorkerResources.
use mathlib.Core.Path.{subst}
use ngd_ngg_scheduling.Base.{
  ℕ, ◌<◌, ◌≤◌, ◌≡◌, refl, ap, inl, inr, true, false, ◌&&◌, List, [], ◌∷◌, Option, none, some, ◌==◌,
  ok, ℤ, pos, negsuc, ltb_ℤ, arith, All, Bool-cases, bind-ok, reject_if-ok, ok-injective,
}
use ngd_ngg_scheduling.Text.{Text, text_Eq, trim_space}
use ngd_ngg_scheduling.Text.Decimal.{cutoff, format_int, parse_int, parse_int-format_uint}
use ngd_ngg_scheduling.Json.{
  Json, null, bool, number, text, array, object, Fields, end, field, member, has_member, set_member,
}
use ngd_ngg_scheduling.Json.Members.{member_set}
use ngd_ngg_scheduling.StaticCache.{Encoding, printed}
use ngd_ngg_scheduling.Service.Usage.{parse_quantity_value}
use ngd_ngg_scheduling.Worker.{format_uint}
use ngd_ngg_scheduling.Quantity.{
  base_units, normalize_values, normalize_resource_map, check_minimum, normalize_items,
}

-- The text of an int64 that is not negative.
abbrev pub IsUnits : Json → Type 0
IsUnits v = (n : ℕ) × (v ≡ text (format_uint n)) × (n < cutoff)

-- The values of the fields are texts of numbers that are not negative.
abbrev pub AllUnits : Fields → Type 0
AllUnits end = Unit
AllUnits (field name v rest) = IsUnits v × AllUnits rest

-- A minimum that has a quota is no more than it, as numbers.
abbrev pub IsWithin : Fields → Text → Json → Type 0
IsWithin quota name v =
    has_member name quota ≡ true
    → (m : ℕ) × (q : ℕ) × (v ≡ text (format_uint m))
      × (member name quota ≡ text (format_uint q))
      × (m ≤ q)

abbrev pub AllWithin : Fields → Fields → Type 0
AllWithin quota end = Unit
AllWithin quota (field name v rest) = IsWithin quota name v × AllWithin quota rest

-- The item has the values under the name.
abbrev pub HasUnits : Text → Fields → Type 0
HasUnits target item = (values : Fields) × (member target item ≡ object values) × AllUnits values

AllUnits-member :
    (name : Text) (fs : Fields) → AllUnits fs → has_member name fs ≡ true → IsUnits (member name fs)
unfolding member has_member
AllUnits-member name end u h = cc
AllUnits-member name (field k v rest) u h = elim (Bool-cases (name == k)) [
  | inl e ↦ rw e u.0
  | inr e ↦ rw e (AllUnits-member name rest u.1 (rw e at h))
]

module _ (E : Encoding) (parse_quantity : Text → Text → Option ℤ) where
  -- A parsed value that is not negative is an int64.
  abbrev pub IsInt64 : Type 0
  IsInt64 = (raw name : Text) (n : ℕ) → parse_quantity raw name ≡ some (pos n) → n < cutoff

  parse_quantity_value-IsInt64 :
      (raw name : Text) (n : ℕ)
      → IsInt64
      → parse_quantity_value E parse_quantity raw name ≡ some (pos n)
      → n < cutoff
  unfolding parse_quantity_value
  parse_quantity_value-IsInt64 raw name n bounded h = ground (arith, bounded raw name n)

  base_units-IsUnits :
      (o : Option ℤ) (units : Text)
      → ((n : ℕ) → o ≡ some (pos n) → n < cutoff)
      → base_units E parse_quantity o ≡ ok units
      → IsUnits (text units)
  unfolding base_units format_int
  base_units-IsUnits none units bounded h = cc
  base_units-IsUnits (some (negsuc n)) units bounded h = cc
  base_units-IsUnits (some (pos n)) units bounded h = (n, cc h, bounded n refl)

  normalize_values-AllUnits :
      (fs gs : Fields) → IsInt64 → normalize_values E parse_quantity fs ≡ ok gs → AllUnits gs
  unfolding normalize_values
  normalize_values-AllUnits end gs bounded h = subst AllUnits (ok-injective end gs h) tt
  normalize_values-AllUnits (field name raw rest) gs bounded h =
      let value = parse_quantity_value E parse_quantity (trim_space (printed E raw)) name in
      let (units, read, h1) = bind-ok (base_units E parse_quantity value) _ gs h in
      let (others, later, h2) = bind-ok (normalize_values E parse_quantity rest) _ gs h1 in
      subst AllUnits (ok-injective (field name (text units) others) gs h2) (
        base_units-IsUnits value units
            (λ n. parse_quantity_value-IsInt64 (trim_space (printed E raw)) name n bounded) read,
        normalize_values-AllUnits rest others bounded later,
      )

  pub normalize_resource_map-AllUnits :
      (v : Json) (values : Fields)
      → IsInt64
      → normalize_resource_map E parse_quantity v ≡ ok values
      → AllUnits values
  unfolding normalize_resource_map
  normalize_resource_map-AllUnits null values bounded h =
      subst AllUnits (ok-injective end values h) tt
  normalize_resource_map-AllUnits (bool b) values bounded h = cc
  normalize_resource_map-AllUnits (number n) values bounded h = cc
  normalize_resource_map-AllUnits (text s) values bounded h = cc
  normalize_resource_map-AllUnits (array items) values bounded h = cc
  normalize_resource_map-AllUnits (object fs) values bounded h =
      normalize_values-AllUnits fs values bounded h

  pub normalize_items-HasUnits :
      (source target : Text) (items done : List Fields)
      → IsInt64
      → normalize_items E parse_quantity source target items ≡ ok done
      → All (HasUnits target) done
  unfolding normalize_items
  normalize_items-HasUnits source target [] done bounded h =
      subst (All (HasUnits target)) (ok-injective [] done h) tt
  normalize_items-HasUnits source target (item ∷ rest) done bounded h =
      let (values, read, h1) =
        bind-ok (normalize_resource_map E parse_quantity (member source item)) _ done h in
      let (others, later, h2) =
        bind-ok (normalize_items E parse_quantity source target rest) _ done h1 in
      subst (All (HasUnits target))
        (ok-injective (set_member target (object values) item ∷ others) done h2)
        (
          (
            values,
            member_set target (object values) item,
            normalize_resource_map-AllUnits (member source item) values bounded read,
          ),
          normalize_items-HasUnits source target rest others bounded later,
        )

  units_value :
      (v : Json) (n : ℕ)
      → v ≡ text (format_uint n)
      → n < cutoff
      → (parse_int (printed E v)).0 ≡ pos n
  unfolding printed
  units_value v n e low = rw e (ap (λ r. r.0) (parse_int-format_uint n low))

  ordered :
      (quota : Fields) (name : Text) (v : Json)
      → AllUnits quota
      → IsUnits v
      → (has_member name quota
          && ltb_ℤ (parse_int (printed E (member name quota))).0 (parse_int (printed E v)).0)
        ≡ false
      → IsWithin quota name v
  ordered quota name v u (m, e, low) h known =
      let (q, f, bound) = AllUnits-member name quota u known in
      (
        m,
        q,
        e,
        f,
        ground (arith, rw (units_value v m e low, units_value (member name quota) q f bound) at h),
      )

  pub check_minimum-AllWithin :
      (quota minimum : Fields)
      → AllUnits quota
      → AllUnits minimum
      → check_minimum E parse_quantity quota minimum ≡ ok tt
      → AllWithin quota minimum
  unfolding check_minimum
  check_minimum-AllWithin quota end u w h = tt
  check_minimum-AllWithin quota (field name v rest) u w h =
      let (low, later) = reject_if-ok _ _ (check_minimum E parse_quantity quota rest) tt h in
      (ordered quota name v u w.0 low, check_minimum-AllWithin quota rest u w.1 later)
