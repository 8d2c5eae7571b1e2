-- ===== src/StaticCache/Versions.antt =====
-- What the two versions of the cache hold.
use ngd_ngg_scheduling.Base.{
  ◌≡◌, refl, sym, ◌∙◌, ◌⊎◌, inl, inr, Bool-cases, ◌>>=◌, List, [], ◌∷◌, Option, none, some, arith,
  ◌==◌, Result, ok, err,
}
use mathlib.Core.Path.{subst}
use ngd_ngg_scheduling.Text.{Text, text_Eq}
use ngd_ngg_scheduling.Json.{Fields}
use ngd_ngg_scheduling.StaticCache.{
  CachedSnapshot, StaticCache, empty_cache, PutError, Encoding, get, store, canonical_hash, content,
  build, put,
}

module _ (E : Encoding) where
  -- The cache after a put, which an error leaves as it is.
  abbrev pub cache_of : StaticCache → Result PutError (CachedSnapshot × StaticCache) → StaticCache
  cache_of c (ok (s, c')) = c'
  cache_of c (err why) = c

  -- A sequence of puts, each with the identity of its path and its body.
  abbrev pub put_all : List (Text × Fields) → StaticCache → StaticCache
  put_all [] c = c
  put_all ((id, body) ∷ rest) c = put_all rest (cache_of c (put E id body c))

  -- The snapshot was built from a body whose content has its identity as hash.
  abbrev pub IsAuthentic : CachedSnapshot → Type 0
  IsAuthentic s =
      (id : Text) × ((body : Fields) × (build E id body ≡ ok s)
        × (canonical_hash E (content E body) ≡ s.snapshot_id))

  abbrev Held : Option CachedSnapshot → Type 0
  Held none = Unit
  Held (some s) = IsAuthentic s

  abbrev BothHeld : StaticCache → Type 0
  BothHeld c = Held c.current × Held c.previous

  build_sound :
      (id : Text) (body : Fields) (s : CachedSnapshot)
      → build E id body ≡ ok s
      → (s.snapshot_id ≡ id) × (canonical_hash E (content E body) ≡ id)
  unfolding build
  build_sound id body s h = ground (arith, text_Eq.beq_iff (canonical_hash E (content E body)) id)

  store_versions :
      (s : CachedSnapshot) (o p : Option CachedSnapshot)
      → IsAuthentic s
      → Held o
      → Held p
      → BothHeld (store s (record { current = o; previous = p })).1
  unfolding store
  store_versions s none p a ho hp = (a, hp)
  store_versions s (some latest) p a ho hp =
      elim (Bool-cases (latest.snapshot_id == s.snapshot_id)) [
        | inl t ↦ rw t (ho, hp)
        | inr f ↦ rw f (a, ho)
      ]

  put_built :
      (id : Text) (body : Fields) (c : StaticCache) (built : Result PutError CachedSnapshot)
      → build E id body ≡ built
      → BothHeld c
      → BothHeld (cache_of c (built >>= λ s. ok (store s c)))
  put_built id body c (err why) e h = h
  put_built id body c (ok s) e h =
      let b = build_sound id body s e in
      store_versions s c.current c.previous (id, (body, e, b.1 ∙ sym b.0)) h.0 h.1

  put_all-held :
      (puts : List (Text × Fields)) (c : StaticCache) → BothHeld c → BothHeld (put_all puts c)
  unfolding put
  put_all-held [] c h = h
  put_all-held ((id, body) ∷ rest) c h =
      put_all-held rest (cache_of c (put E id body c))
        (put_built id body c (build E id body) refl h)

  get_cases :
      (id : Text) (o p : Option CachedSnapshot) (s : CachedSnapshot)
      → get id (record { current = o; previous = p }) ≡ some s
      → (s.snapshot_id ≡ id) × ((o ≡ some s) ⊎ (p ≡ some s))
  unfolding get
  get_cases id none none s h = cc
  get_cases id none (some b) s h = grind (arith, text_Eq.beq_iff b.snapshot_id id)
  get_cases id (some a) none s h = grind (arith, text_Eq.beq_iff a.snapshot_id id)
  get_cases id (some a) (some b) s h =
      grind (arith, text_Eq.beq_iff a.snapshot_id id, text_Eq.beq_iff b.snapshot_id id)

  get_version :
      (id : Text) (o p : Option CachedSnapshot) (s : CachedSnapshot)
      → Held o
      → Held p
      → get id (record { current = o; previous = p }) ≡ some s
      → (s.snapshot_id ≡ id) × IsAuthentic s
  get_version id o p s ho hp h =
      let found = get_cases id o p s h in
      (found.0, elim found.1 [ inl e ↦ subst Held e ho | inr e ↦ subst Held e hp ])

  -- After any puts, accepted or not, what get finds under an identity has that identity, and it is
  -- what put builds of some body whose content has that identity as its hash.
  pub get-IsAuthentic :
      (puts : List (Text × Fields)) (id : Text) (s : CachedSnapshot)
      → get id (put_all puts empty_cache) ≡ some s
      → (s.snapshot_id ≡ id) × IsAuthentic s
  get-IsAuthentic puts id s h =
      let c = put_all puts empty_cache in
      let held = put_all-held puts empty_cache (tt, tt) in
      get_version id c.current c.previous s held.0 held.1 h

-- After a store, get finds under the identity the snapshot that store returned, and the version that
-- was the latest before is still found under its own identity, whatever the oldest was.
pub get-store :
    (s latest : CachedSnapshot) (oldest : Option CachedSnapshot)
    → let r = store s (record { current = some latest; previous = oldest }) in
      (get s.snapshot_id r.1 ≡ some r.0) × (get latest.snapshot_id r.1 ≡ some latest)
unfolding get store
get-store s latest oldest = grind (
  arith,
  text_Eq.beq_iff latest.snapshot_id s.snapshot_id,
  text_Eq.beq_iff s.snapshot_id latest.snapshot_id,
  text_Eq.beq_iff s.snapshot_id s.snapshot_id,
  text_Eq.beq_iff latest.snapshot_id latest.snapshot_id,
)
