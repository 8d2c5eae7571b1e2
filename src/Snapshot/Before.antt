-- ===== src/Snapshot/Before.antt =====
-- prc/pkg/controller/snapshot.go buildStaticSnapshot: the order in which the Nodes of a static
-- snapshot are sorted.
use mathlib.Core.List.{Permᴰ}
use ngd_ngg_scheduling.Base.{◌≡◌, ◌≢◌, sym, true, false, List, arith}
use ngd_ngg_scheduling.Text.{Text, text_Eq, text_lt}
use ngd_ngg_scheduling.Text.Order.{text_lt_trans, text_lt_total, text_lt_asymm}
use ngd_ngg_scheduling.Sets.Insertion.{sort_by, Pairwise, sort_by-Permᴰ}
use ngd_ngg_scheduling.Snapshot.Built.{StaticNode, static_before}

pub text_lt_connected : (s t : Text) → s ≢ t → text_lt s t ≡ false → text_lt t s ≡ true
text_lt_connected s t n h = ground (arith, text_lt_total s t)

pub text_lt_between : (m a b : Text) → text_lt m a ≡ true → text_lt m b ≡ false → text_lt b a ≡ true
text_lt_between m a b h k = grind (arith, text_lt_total m b, text_lt_trans b m a)

-- Two items with different UIDs.
abbrev pub ApartStatic : StaticNode → StaticNode → Type 0
ApartStatic a b = a.node_uid ≢ b.node_uid

static_before_asymm : (a b : StaticNode) → static_before a b ≡ true → static_before b a ≡ false
static_before_asymm a b h = ground (
  arith,
  text_Eq.beq_iff a.node_uid b.node_uid,
  text_Eq.beq_iff b.node_uid a.node_uid,
  text_lt_asymm a.node_name b.node_name,
  text_lt_asymm a.node_uid b.node_uid,
)

static_before_connected :
    (a b : StaticNode) → ApartStatic a b → static_before a b ≡ false → static_before b a ≡ true
static_before_connected a b n h = ground (
  arith,
  text_Eq.beq_iff a.node_uid b.node_uid,
  text_Eq.beq_iff b.node_uid a.node_uid,
  text_lt_connected a.node_uid b.node_uid,
)

static_before_between :
    (m a b : StaticNode)
    → static_before m a ≡ true
    → static_before m b ≡ false
    → static_before b a ≡ true
static_before_between m a b h k = ground (
  arith,
  text_Eq.beq_iff m.node_uid a.node_uid,
  text_Eq.beq_iff m.node_uid b.node_uid,
  text_Eq.beq_iff b.node_uid a.node_uid,
  text_lt_between m.node_uid a.node_uid b.node_uid,
  text_lt_between m.node_name a.node_name b.node_name,
  text_lt_total m.node_uid b.node_uid,
)

pub sort_static-Permᴰ :
    {xs ys : List StaticNode}
    → Permᴰ xs ys
    → Pairwise ApartStatic xs
    → sort_by static_before xs ≡ sort_by static_before ys
sort_static-Permᴰ =
    sort_by-Permᴰ static_before ApartStatic (λ a b n e. n (sym e)) static_before_asymm
      static_before_connected static_before_between
