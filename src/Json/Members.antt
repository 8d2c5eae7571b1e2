-- ===== src/Json/Members.antt =====
-- What an object holds under a key after an assignment or a deletion.
use ngd_ngg_scheduling.Base.{◌≡◌, refl, false, ◌||◌, if◌then◌else◌, ◌==◌, arith}
use ngd_ngg_scheduling.Text.{Text, text_Eq}
use ngd_ngg_scheduling.Json.{
  Json, null, Fields, end, field, member, has_member, set_member, delete_member,
}

pub member-set_member :
    (j k : Text) (v : Json) (fs : Fields)
    → member j (set_member k v fs) ≡ (if j == k then v else member j fs)
unfolding member set_member
member-set_member j k v end = refl
member-set_member j k v (field i w rest) = ground (
  arith,
  text_Eq.beq_iff k i,
  text_Eq.beq_iff j i,
  text_Eq.beq_iff j k,
  member-set_member j k v rest,
)

pub member_set : (k : Text) (v : Json) (fs : Fields) → member k (set_member k v fs) ≡ v
member_set k v fs = ground (arith, text_Eq.beq_iff k k, member-set_member k k v fs)

pub has_member-set_member :
    (j k : Text) (v : Json) (fs : Fields)
    → has_member j (set_member k v fs) ≡ ((j == k) || has_member j fs)
unfolding has_member set_member
has_member-set_member j k v end = ground (arith, text_Eq.beq_iff j k)
has_member-set_member j k v (field i w rest) = ground (
  arith,
  text_Eq.beq_iff k i,
  text_Eq.beq_iff j i,
  text_Eq.beq_iff j k,
  has_member-set_member j k v rest,
)

pub member-delete_member :
    (j k : Text) (fs : Fields)
    → member j (delete_member k fs) ≡ (if j == k then null else member j fs)
unfolding member delete_member
member-delete_member j k end = ground arith
member-delete_member j k (field i w rest) = ground (
  arith,
  text_Eq.beq_iff k i,
  text_Eq.beq_iff j i,
  text_Eq.beq_iff j k,
  member-delete_member j k rest,
)

pub has_member-delete_member : (k : Text) (fs : Fields) → has_member k (delete_member k fs) ≡ false
unfolding has_member delete_member
has_member-delete_member k end = refl
has_member-delete_member k (field i w rest) =
    ground (arith, text_Eq.beq_iff k i, has_member-delete_member k rest)
