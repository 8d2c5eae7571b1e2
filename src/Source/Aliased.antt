-- ===== src/Source/Aliased.antt =====
-- Which aliases the last loop of buildCache records, and what the resolver then finds under them.
use ngd_ngg_scheduling.Base.{
  ◌≡◌, refl, ◌↔◌, ◌⊎◌, inl, inr, true, List, [], ◌∷◌, ◌++◌, none, some, lookup, ok, Elem, arith,
  Bool-cases,
}
use mathlib.Core.Path.{subst}
use ngd_ngg_scheduling.Text.{Text, text_Eq}
use ngd_ngg_scheduling.Topology.{ResolvedLeaf}
use ngd_ngg_scheduling.Source.Domains.{Leaves}
use ngd_ngg_scheduling.Source.Aliases.{
  Kind, leaf_kind, spine_kind, border_kind, Aliases, Call, domain_at, switches_at, has_domain,
  switch_calls, kind_calls, all_calls, build_aliases,
}
use ngd_ngg_scheduling.Source.Called.{found, call, add_aliases_set, add_aliases_origin}

-- The leaf has the domain, and the alias is the domain itself or one of its switches or leaves.
abbrev pub Names : Kind → Text → Text → ResolvedLeaf → Type 0
Names kind alias domain leaf =
    (has_domain kind leaf ≡ true)
    × (domain ≡ domain_at kind leaf)
    × ((alias ≡ domain) ⊎ Elem alias (switches_at kind leaf))

abbrev pub SomeLeafNames : Kind → Text → Text → Leaves → Type 0
SomeLeafNames kind alias domain [] = ⊥
SomeLeafNames kind alias domain ((id, leaf) ∷ rest) =
    Names kind alias domain leaf ⊎ SomeLeafNames kind alias domain rest

Elem-append : {A : Type 0} (a : A) (xs ys : List A) → Elem a (xs ++ ys) ↔ (Elem a xs ⊎ Elem a ys)
Elem-append a [] ys = (inr, λ m. elim m [ inl n ↦ absurd n | inr n ↦ n ])
Elem-append a (x ∷ xs) ys = ground (arith, Elem-append a xs ys)

Elem-switch_calls :
    (k l : Kind) (x d domain : Text) (ids : List Text)
    → Elem (call k x d) (switch_calls l domain ids) ↔ ((k ≡ l) × (d ≡ domain) × Elem x ids)
Elem-switch_calls k l x d domain [] = ground arith
Elem-switch_calls k l x d domain (id ∷ ids) = ground (arith, Elem-switch_calls k l x d domain ids)

Elem-kind_calls :
    (k l : Kind) (x d : Text) (leaf : ResolvedLeaf)
    → Elem (call k x d) (kind_calls l leaf) ↔ ((k ≡ l) × Names l x d leaf)
unfolding kind_calls
Elem-kind_calls k l x d leaf = elim (Bool-cases (has_domain l leaf)) [
  | inr none_there ↦ ground arith
  | inl there ↦ ground (arith, Elem-switch_calls k l x d (domain_at l leaf) (switches_at l leaf))
]

kinds_apart : (k : Kind) → (k ≡ leaf_kind) ⊎ ((k ≡ spine_kind) ⊎ (k ≡ border_kind))
kinds_apart leaf_kind = inl refl
kinds_apart spine_kind = inr (inl refl)
kinds_apart border_kind = inr (inr refl)

-- The calls for one leaf name what it names.
abbrev leaf_calls : ResolvedLeaf → List Call → List Call
leaf_calls leaf rest =
    kind_calls leaf_kind leaf
    ++ (kind_calls spine_kind leaf ++ (kind_calls border_kind leaf ++ rest))

Elem-leaf_calls :
    (k : Kind) (x d : Text) (leaf : ResolvedLeaf) (rest : List Call)
    → Elem (call k x d) (leaf_calls leaf rest) ↔ (Names k x d leaf ⊎ Elem (call k x d) rest)
Elem-leaf_calls k x d leaf rest =
    let c = call k x d in
    let l = kind_calls leaf_kind leaf in
    let s = kind_calls spine_kind leaf in
    let b = kind_calls border_kind leaf in
    let first = Elem-append c l (s ++ (b ++ rest)) in
    let second = Elem-append c s (b ++ rest) in
    let third = Elem-append c b rest in
    (
      λ m. elim (first.0 m) [
        | inl n ↦ inl (
            rw ((Elem-kind_calls k leaf_kind x d leaf).0 n).0
              ((Elem-kind_calls k leaf_kind x d leaf).0 n).1)
        | inr m' ↦ elim (second.0 m') [
          | inl n ↦ inl (
              rw ((Elem-kind_calls k spine_kind x d leaf).0 n).0
                ((Elem-kind_calls k spine_kind x d leaf).0 n).1)
          | inr m'' ↦ elim (third.0 m'') [
            | inl n ↦ inl (
                rw ((Elem-kind_calls k border_kind x d leaf).0 n).0
                  ((Elem-kind_calls k border_kind x d leaf).0 n).1)
            | inr n ↦ inr n
          ]
        ]
      ],
      λ m. elim m [
        | inr n ↦ first.1 (inr (second.1 (inr (third.1 (inr n)))))
        | inl names ↦ elim (kinds_apart k) [
          | inl e ↦ first.1 (
              inl (
                (Elem-kind_calls k leaf_kind x d leaf).1
                  (e, subst (λ j. Names j x d leaf) e names)))
          | inr (inl e) ↦ first.1 (
              inr (
                second.1 (
                  inl (
                    (Elem-kind_calls k spine_kind x d leaf).1
                      (e, subst (λ j. Names j x d leaf) e names)))))
          | inr (inr e) ↦ first.1 (
              inr (
                second.1 (
                  inr (
                    third.1 (
                      inl (
                        (Elem-kind_calls k border_kind x d leaf).1
                          (e, subst (λ j. Names j x d leaf) e names)))))))
        ]
      ],
    )

Elem-all_calls :
    (k : Kind) (x d : Text) (by_leaf : Leaves)
    → Elem (call k x d) (all_calls by_leaf) ↔ SomeLeafNames k x d by_leaf
unfolding all_calls
Elem-all_calls k x d [] = (λ m. m, λ m. m)
Elem-all_calls k x d ((id, leaf) ∷ rest) =
    ground (arith, Elem-leaf_calls k x d leaf (all_calls rest), Elem-all_calls k x d rest)

found-nothing :
    (k : Kind) (x : Text)
    → found k x (record { leaf_aliases = []; spine_aliases = []; border_aliases = [] }) ≡ none
unfolding lookup
found-nothing leaf_kind x = refl
found-nothing spine_kind x = refl
found-nothing border_kind x = refl

-- The aliases that are built: a switch or a domain leads to a domain exactly if some leaf of the
-- topology has that domain and names it or the switch as part of it. So no alias is lost or
-- invented, and no switch belongs to two domains of one kind.
pub build_aliases_iff :
    (by_leaf : Leaves) (aliases : Aliases) (kind : Kind) (alias domain : Text)
    → build_aliases by_leaf ≡ ok aliases
    → (found kind alias aliases ≡ some domain) ↔ SomeLeafNames kind alias domain by_leaf
unfolding build_aliases
build_aliases_iff by_leaf aliases kind alias domain e = (
  λ h. elim (add_aliases_origin (all_calls by_leaf) _ aliases kind alias domain e h) [
    | inl before ↦ absurd (ground (arith, found-nothing kind alias))
    | inr called ↦ (Elem-all_calls kind alias domain by_leaf).0 called
  ],
  λ h.
      add_aliases_set (all_calls by_leaf) _ aliases (call kind alias domain) e
        ((Elem-all_calls kind alias domain by_leaf).1 h),
)
