-- ===== src/Source/Called.antt =====
-- What a sequence of calls of addAlias records.
use ngd_ngg_scheduling.Base.{
  ◌≡◌, refl, sym, ◌↔◌, ◌⊎◌, inl, inr, Bool, true, false, List, [], ◌∷◌, Option, none, some,
  if◌then◌else◌, ◌==◌, lookup, lookup-insert, ok, Elem, arith, Result-cases, Bool-cases,
}
use ngd_ngg_scheduling.Text.{Text, text_Eq}
use ngd_ngg_scheduling.Source.Aliases.{
  Kind, leaf_kind, spine_kind, border_kind, Aliases, aliases_at, set_alias, Call, is_other,
  add_alias, add_aliases,
}

-- The domain of an alias.
abbrev pub found : Kind → Text → Aliases → Option Text
found kind alias a = lookup alias (aliases_at kind a)

abbrev same_kind : Kind → Kind → Bool
same_kind leaf_kind leaf_kind = true
same_kind spine_kind spine_kind = true
same_kind border_kind border_kind = true
same_kind _ _ = false

same_kind_iff : (k l : Kind) → (same_kind k l ≡ true) ↔ (k ≡ l)
same_kind_iff leaf_kind leaf_kind = (λ _. refl, λ _. refl)
same_kind_iff leaf_kind spine_kind = (λ h. cc, λ h. cc)
same_kind_iff leaf_kind border_kind = (λ h. cc, λ h. cc)
same_kind_iff spine_kind leaf_kind = (λ h. cc, λ h. cc)
same_kind_iff spine_kind spine_kind = (λ _. refl, λ _. refl)
same_kind_iff spine_kind border_kind = (λ h. cc, λ h. cc)
same_kind_iff border_kind leaf_kind = (λ h. cc, λ h. cc)
same_kind_iff border_kind spine_kind = (λ h. cc, λ h. cc)
same_kind_iff border_kind border_kind = (λ _. refl, λ _. refl)

found-set_alias :
    (k l : Kind) (x alias domain : Text) (a : Aliases)
    → found k x (set_alias l alias domain a)
      ≡ (if same_kind k l then (if x == alias then some domain else found k x a) else found k x a)
found-set_alias leaf_kind leaf_kind x alias domain a = lookup-insert alias x domain a.leaf_aliases
found-set_alias leaf_kind spine_kind x alias domain a = refl
found-set_alias leaf_kind border_kind x alias domain a = refl
found-set_alias spine_kind leaf_kind x alias domain a = refl
found-set_alias spine_kind spine_kind x alias domain a =
    lookup-insert alias x domain a.spine_aliases
found-set_alias spine_kind border_kind x alias domain a = refl
found-set_alias border_kind leaf_kind x alias domain a = refl
found-set_alias border_kind spine_kind x alias domain a = refl
found-set_alias border_kind border_kind x alias domain a =
    lookup-insert alias x domain a.border_aliases

-- A call that succeeds sets its alias, which had no other domain before.
add_alias_lem :
    (c : Call) (a b : Aliases)
    → add_alias c a ≡ ok b
    → (set_alias c.kind c.alias c.domain a ≡ b)
      × (is_other c.domain (found c.kind c.alias a) ≡ false)
unfolding add_alias
add_alias_lem c a b e = elim (Bool-cases (is_other c.domain (found c.kind c.alias a))) [
  | inl other ↦ absurd (ground arith)
  | inr same ↦ (ground arith, same)
]

-- What a call that succeeds changes.
found-add_alias :
    (c : Call) (a b : Aliases) (k : Kind) (x : Text)
    → add_alias c a ≡ ok b
    → found k x b ≡ (
        if same_kind k c.kind
        then (if x == c.alias then some c.domain else found k x a)
        else found k x a)
found-add_alias c a b k x e =
    rw (sym (add_alias_lem c a b e).0) (found-set_alias k c.kind x c.alias c.domain a)

not_other :
    (domain : Text) (o : Option Text) (d : Text)
    → is_other domain o ≡ false
    → o ≡ some d
    → d ≡ domain
not_other domain none d h e = cc
not_other domain (some existing) d h e = ground (arith, text_Eq.beq_iff existing domain)

add_alias_keeps :
    (c : Call) (a b : Aliases) (k : Kind) (x d : Text)
    → add_alias c a ≡ ok b
    → found k x a ≡ some d
    → found k x b ≡ some d
add_alias_keeps c a b k x d e known =
    rw (found-add_alias c a b k x e) (elim (Bool-cases (same_kind k c.kind)) [
      | inr apart ↦ rw apart known
      | inl together ↦ elim (Bool-cases (x == c.alias)) [
        | inr other ↦ rw (together, other) known
        | inl same ↦
            rw (together, same)
              (ground (
                arith,
                (same_kind_iff k c.kind).0 together,
                (text_Eq.beq_iff x c.alias).0 same,
                (add_alias_lem c a b e).1,
                not_other c.domain (found c.kind c.alias a) d,
              ))
      ]
    ])

add_alias_sets :
    (c : Call) (a b : Aliases) → add_alias c a ≡ ok b → found c.kind c.alias b ≡ some c.domain
add_alias_sets c a b e =
    rw
      (
        found-add_alias c a b c.kind c.alias e,
        (same_kind_iff c.kind c.kind).1 refl,
        (text_Eq.beq_iff c.alias c.alias).1 refl,
      )
      refl

abbrev pub call : Kind → Text → Text → Call
call kind alias domain = record { kind = kind; alias = alias; domain = domain }

add_aliases_keep :
    (cs : List Call) (a b : Aliases) (k : Kind) (x d : Text)
    → add_aliases cs a ≡ ok b
    → found k x a ≡ some d
    → found k x b ≡ some d
unfolding add_aliases
add_aliases_keep [] a b k x d e known = ground arith
add_aliases_keep (c ∷ rest) a b k x d e known = elim (Result-cases (add_alias c a)) [
  | inl (m, one) ↦
      ground (arith, add_alias_keeps c a m k x d one known, add_aliases_keep rest m b k x d)
  | inr (why, refused) ↦ absurd (ground arith)
]

-- Each call has set its alias for good.
pub add_aliases_set :
    (cs : List Call) (a b : Aliases) (c : Call)
    → add_aliases cs a ≡ ok b
    → Elem c cs
    → found c.kind c.alias b ≡ some c.domain
unfolding add_aliases
add_aliases_set [] a b c e m = absurd m
add_aliases_set (first ∷ rest) a b c e m = elim (Result-cases (add_alias first a)) [
  | inl (more, one) ↦
      let later : add_aliases rest more ≡ ok b = ground arith in
      elim m [
        | inl same ↦ rw same (
            add_aliases_keep rest more b first.kind first.alias first.domain later
              (add_alias_sets first a more one))
        | inr m' ↦ add_aliases_set rest more b c later m'
      ]
  | inr (why, refused) ↦ absurd (ground arith)
]

-- What is found was there before, or a call has set it.
pub add_aliases_origin :
    (cs : List Call) (a b : Aliases) (k : Kind) (x d : Text)
    → add_aliases cs a ≡ ok b
    → found k x b ≡ some d
    → (found k x a ≡ some d) ⊎ Elem (call k x d) cs
unfolding add_aliases
add_aliases_origin [] a b k x d e h = inl (ground arith)
add_aliases_origin (c ∷ rest) a b k x d e h = elim (Result-cases (add_alias c a)) [
  | inl (m, one) ↦ elim (add_aliases_origin rest m b k x d (ground arith) h) [
    | inr later ↦ inr (inr later)
    | inl known ↦ elim (Bool-cases (same_kind k c.kind)) [
      | inr apart ↦ inl (ground (arith, found-add_alias c a m k x one))
      | inl together ↦ elim (Bool-cases (x == c.alias)) [
        | inr other ↦ inl (ground (arith, found-add_alias c a m k x one))
        | inl same ↦ inr (
            inl (
              ground (
                arith,
                found-add_alias c a m k x one,
                (same_kind_iff k c.kind).0 together,
                (text_Eq.beq_iff x c.alias).0 same,
              )))
      ]
    ]
  ]
  | inr (why, refused) ↦ absurd (ground arith)
]
