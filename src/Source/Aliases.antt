-- ===== src/Source/Aliases.antt =====
-- The aliases of algorithm_server/go/topology/source.go: the calls of addAlias in the last loop of
-- buildCache, in their order.
use ngd_ngg_scheduling.Base.{
  Bool, true, false, not, List, [], ◌∷◌, ◌++◌, Option, none, some, if◌then◌else◌, ◌==◌, lookup,
  insert, Result, ok, err, ◌>>=◌,
}
use ngd_ngg_scheduling.Text.{Text, text_Eq, is_empty}
use ngd_ngg_scheduling.Topology.{ResolvedLeaf}
use ngd_ngg_scheduling.Source.{SourceError, ambiguous_alias}
use ngd_ngg_scheduling.Source.Domains.{Leaves}

-- The `kind` of addAlias, which goes with one of the three maps.
pub data Kind : Type 0 where
  leaf_kind spine_kind border_kind : Kind

-- The three maps.
pub record Aliases : Type 0 where
  pub leaf_aliases : List (Text × Text)
  pub spine_aliases : List (Text × Text)
  pub border_aliases : List (Text × Text)

abbrev pub aliases_at : Kind → Aliases → List (Text × Text)
aliases_at leaf_kind a = a.leaf_aliases
aliases_at spine_kind a = a.spine_aliases
aliases_at border_kind a = a.border_aliases

abbrev pub set_alias : Kind → Text → Text → Aliases → Aliases
set_alias leaf_kind alias domain a = record a { leaf_aliases = insert alias domain a.leaf_aliases }
set_alias spine_kind alias domain a = record a {
  spine_aliases = insert alias domain a.spine_aliases;
}
set_alias border_kind alias domain a = record a {
  border_aliases = insert alias domain a.border_aliases;
}

-- The arguments of a call of addAlias.
pub record Call : Type 0 where
  pub kind : Kind
  pub alias : Text
  pub domain : Text

-- `existing, ok := aliases[alias]; ok && existing != domain`
abbrev pub is_other : Text → Option Text → Bool
is_other domain none = false
is_other domain (some existing) = not (existing == domain)

-- addAlias
unfoldable pub add_alias : Call → Aliases → Result SourceError Aliases
add_alias c a =
    if is_other c.domain (lookup c.alias (aliases_at c.kind a))
    then err (ambiguous_alias c.alias)
    else ok (set_alias c.kind c.alias c.domain a)

unfoldable pub add_aliases : List Call → Aliases → Result SourceError Aliases
add_aliases [] a = ok a
add_aliases (c ∷ rest) a = add_alias c a >>= λ more. add_aliases rest more

-- The domain of a leaf of a kind, and the switches or leaves that it is made of.
abbrev pub domain_at : Kind → ResolvedLeaf → Text
domain_at leaf_kind leaf = leaf.leaf_domain_id
domain_at spine_kind leaf = leaf.spine_domain_id
domain_at border_kind leaf = leaf.border_domain_id

abbrev pub switches_at : Kind → ResolvedLeaf → List Text
switches_at leaf_kind leaf = leaf.leaf_domain_leaves
switches_at spine_kind leaf = leaf.spine_switch_ids
switches_at border_kind leaf = leaf.border_switch_ids

-- Whether the leaf has the domain: always a leaf domain.
abbrev pub has_domain : Kind → ResolvedLeaf → Bool
has_domain leaf_kind leaf = true
has_domain spine_kind leaf = not (is_empty leaf.spine_domain_id)
has_domain border_kind leaf = not (is_empty leaf.border_domain_id)

abbrev pub switch_calls : Kind → Text → List Text → List Call
switch_calls kind domain [] = []
switch_calls kind domain (id ∷ ids) =
    record { kind = kind; alias = id; domain = domain } ∷ switch_calls kind domain ids

-- The calls for one leaf and one kind: the domain itself, then its switches.
unfoldable pub kind_calls : Kind → ResolvedLeaf → List Call
kind_calls kind leaf =
    if has_domain kind leaf
    then record { kind = kind; alias = domain_at kind leaf; domain = domain_at kind leaf }
      ∷ switch_calls kind (domain_at kind leaf) (switches_at kind leaf)
    else []

-- The calls of the loop.
unfoldable pub all_calls : Leaves → List Call
all_calls [] = []
all_calls ((id, leaf) ∷ rest) =
    kind_calls leaf_kind leaf
    ++ (kind_calls spine_kind leaf ++ (kind_calls border_kind leaf ++ all_calls rest))

-- The loop over byLeaf.
unfoldable pub build_aliases : Leaves → Result SourceError Aliases
build_aliases by_leaf =
    add_aliases (all_calls by_leaf)
      (record { leaf_aliases = []; spine_aliases = []; border_aliases = [] })
