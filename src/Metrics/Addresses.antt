-- ===== src/Metrics/Addresses.antt =====
-- algorithm_server/go/algorithm/metric_binding.go: which Node an address leads to.
use mathlib.Core.Path.{subst}
use ngd_ngg_scheduling.Base.{
  ◌≡◌, refl, sym, ap, inl, inr, Bool, true, false, not, ◌&&◌, ◌||◌, List, [], ◌∷◌, ◌++◌, Option,
  none, some, if◌then◌else◌, ◌==◌, lookup, contains, lookup-insert, lookup-delete, arith,
  Bool-cases,
}
use ngd_ngg_scheduling.Text.{Text, text_Eq, is_empty}
use ngd_ngg_scheduling.Json.{Fields}
use ngd_ngg_scheduling.StaticCache.{Encoding}
use ngd_ngg_scheduling.Metrics.{Floats}
use ngd_ngg_scheduling.Metrics.Binding.{
  add_once, IpIndex, index_one, index_nodes, name_of, ip_of, indexed,
}

unfoldable pub all_equal : Text → List Text → Bool
all_equal x [] = true
all_equal x (y ∷ ys) = (y == x) && all_equal x ys

-- The member of a list that holds nothing else.
unfoldable pub common : List Text → Option Text
common [] = none
common (x ∷ xs) = if all_equal x xs then some x else none

abbrev differ : List Text → Bool
differ [] = false
differ (x ∷ xs) = not (all_equal x xs)

all_equal-append :
    (x y : Text) (ys : List Text) → all_equal x (ys ++ y ∷ []) ≡ (all_equal x ys && (y == x))
unfolding all_equal
all_equal-append x y [] = ground arith
all_equal-append x y (z ∷ ys) = ground (arith, all_equal-append x y ys)

pub contains-add_once :
    (j v : Text) (set : List Text) → contains j (add_once v set) ≡ ((j == v) || contains j set)
unfolding contains
contains-add_once j v set = ground (arith, text_Eq.beq_iff j v)

-- What the maps of the first loop say of an address, from the names that it had so far.
abbrev Indexed : Text → List Text → IpIndex → Type 0
Indexed ip names s =
    (lookup ip s.node_by_ip ≡ common names) × (contains ip s.invalid_ips ≡ differ names)

index_one-same :
    (name ip : Text) (names : List Text) (s : IpIndex)
    → is_empty ip ≡ false
    → Indexed ip names s
    → Indexed ip (names ++ name ∷ []) (index_one name ip s)
unfolding index_one common all_equal
index_one-same name ip [] s h (found, invalid) =
    ground (arith, text_Eq.beq_iff ip ip, lookup-insert ip ip name s.node_by_ip)
index_one-same name ip (x ∷ xs) s h (found, invalid) = ground (
  arith,
  text_Eq.beq_iff ip ip,
  text_Eq.beq_iff x name,
  text_Eq.beq_iff name x,
  all_equal-append x name xs,
  lookup-insert ip ip name s.node_by_ip,
  lookup-delete ip ip s.node_by_ip,
  contains-add_once ip ip s.invalid_ips,
)

index_one-other :
    (name ip j : Text) (names : List Text) (s : IpIndex)
    → (is_empty ip || not (ip == j)) ≡ true
    → is_empty j ≡ false
    → Indexed j names s
    → Indexed j names (index_one name ip s)
unfolding index_one
index_one-other name ip j names s h k (found, invalid) = ground (
  arith,
  text_Eq.beq_iff ip j,
  text_Eq.beq_iff j ip,
  lookup-insert ip j name s.node_by_ip,
  lookup-delete ip j s.node_by_ip,
  contains-add_once j ip s.invalid_ips,
)

-- An address that is empty has no Node.
index_one-empty :
    (name ip : Text) (s : IpIndex)
    → lookup [] s.node_by_ip ≡ none
    → lookup [] (index_one name ip s).node_by_ip ≡ none
unfolding index_one
index_one-empty name [] s h = h
index_one-empty name (x ∷ ip) s h = ground (
  arith,
  text_Eq.beq_iff [] (x ∷ ip),
  lookup-insert (x ∷ ip) [] name s.node_by_ip,
  lookup-delete (x ∷ ip) [] s.node_by_ip,
)

pub append_one : (xs : List Text) (x : Text) (ys : List Text) → (xs ++ x ∷ []) ++ ys ≡ xs ++ x ∷ ys
append_one [] x ys = refl
append_one (z ∷ xs) x ys = ap (◌∷◌ z) (append_one xs x ys)

pub append_none : (xs : List Text) → xs ++ [] ≡ xs
append_none [] = refl
append_none (z ∷ xs) = ap (◌∷◌ z) (append_none xs)

module _ (E : Encoding) (F : Floats) where
  open F use {Value}

  -- The names of the Nodes that have the address.
  unfoldable pub names_at : Text → List Fields → List Text
  names_at ip [] = []
  names_at ip (node ∷ rest) =
      let others = names_at ip rest in
      if ip_of E F node == ip then name_of E F node ∷ others else others

  -- The name that all Nodes with the address have.
  unfoldable pub node_of : List Fields → Text → Option Text
  node_of nodes ip = if is_empty ip then none else common (names_at ip nodes)

  index_nodes_lem :
      (ip : Text) (nodes : List Fields) (names : List Text) (s : IpIndex)
      → is_empty ip ≡ false
      → Indexed ip names s
      → Indexed ip (names ++ names_at ip nodes) (index_nodes E F nodes s)
  unfolding names_at index_nodes
  index_nodes_lem ip [] names s h i = rw (append_none names) i
  index_nodes_lem ip (node ∷ rest) names s h i = elim (Bool-cases (ip_of E F node == ip)) [
    | inl e ↦
        let same : ip_of E F node ≡ ip = (text_Eq.beq_iff (ip_of E F node) ip).0 e in
        let once =
          subst
            (λ a. Indexed ip (names ++ name_of E F node ∷ []) (index_one (name_of E F node) a s))
            (sym same) (index_one-same (name_of E F node) ip names s h i) in
        let later =
          index_nodes_lem ip rest (names ++ name_of E F node ∷ [])
            (index_one (name_of E F node) (ip_of E F node) s) h once in
        rw e (rw (append_one names (name_of E F node) (names_at ip rest)) at later)
    | inr e ↦ rw e (
        index_nodes_lem ip rest names _ h
          (index_one-other (name_of E F node) (ip_of E F node) ip names s (ground arith) h i))
  ]

  index_nodes-empty :
      (nodes : List Fields) (s : IpIndex)
      → lookup [] s.node_by_ip ≡ none
      → lookup [] (index_nodes E F nodes s).node_by_ip ≡ none
  unfolding index_nodes
  index_nodes-empty [] s h = h
  index_nodes-empty (node ∷ rest) s h =
      index_nodes-empty rest _ (index_one-empty (name_of E F node) (ip_of E F node) s h)

  -- The Nodes of the addresses after the first loop.
  pub indexed_lem :
      (nodes : List Fields) (ip : Text)
      → lookup ip (indexed E F nodes).node_by_ip ≡ node_of nodes ip
  unfolding node_of lookup common contains
  indexed_lem nodes [] = index_nodes-empty nodes _ refl
  indexed_lem nodes (x ∷ ip) = (index_nodes_lem (x ∷ ip) nodes [] _ refl (refl, refl)).0
