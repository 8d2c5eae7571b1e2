-- ===== src/Lldp/Tlvs.antt =====
-- What the loop of parseLLDPFrame makes of any payload, and of one that was built of TLVs.
use ngd_ngg_scheduling.Base.{
  ℕ, zero, suc, ◌+◌, ◌*◌, ◌/◌, ◌%◌, ◌≤◌, ◌<◌, ◌≡◌, refl, ◌≢◌, false, List, [], ◌∷◌, ◌++◌, All,
  length, length-append, take, drop, arith, ltb, nat_eq,
}
use ngd_ngg_scheduling.Text.{Text}
use ngd_ngg_scheduling.Lldp.{LldpNeighbor, uint16, put_tlv, stuck, walk}

-- A TLV: its type, of seven bits, and its value, of at most 511 bytes.
abbrev pub Tlv : Type 0
Tlv = ℕ × Text

abbrev pub IsTlv : Tlv → Type 0
IsTlv t = (0 < t.0) × (t.0 < 128) × (length t.1 < 512)

-- The header of a TLV, big endian, and its value.
unfoldable pub tlv_bytes : Tlv → Text
tlv_bytes t = (t.0 * 512 + length t.1) / 256 ∷ (t.0 * 512 + length t.1) % 256 ∷ t.1

unfoldable pub payload_of : List Tlv → Text
unfolding tlv_bytes
payload_of [] = []
payload_of (t ∷ ts) = tlv_bytes t ++ payload_of ts

-- The neighbour that the TLVs make of another, one after the other.
unfoldable pub put_all : List Tlv → LldpNeighbor → LldpNeighbor
put_all [] n = n
put_all (t ∷ ts) n = put_all ts (put_tlv t.0 t.1 n)

pub length-drop : {A : Type 0} (k : ℕ) (xs : List A) → length (drop k xs) ≤ length xs
length-drop zero xs = omega arith
length-drop (suc k) [] = omega arith
length-drop (suc k) (x ∷ xs) = omega (arith, length-drop k xs)

pub take-append : {A : Type 0} (xs ys : List A) → take (length xs) (xs ++ ys) ≡ xs
take-append [] ys = refl
take-append (x ∷ xs) ys = rw (take-append xs ys) refl

pub drop-append : {A : Type 0} (xs ys : List A) → drop (length xs) (xs ++ ys) ≡ ys
drop-append [] ys = refl
drop-append (x ∷ xs) ys = drop-append xs ys

-- The loop ends before the fuel does, on any payload that is not longer than the fuel.
pub walk-ne-stuck :
    (fuel : ℕ) (payload : Text) (n : LldpNeighbor)
    → length payload ≤ fuel
    → walk fuel payload n ≢ stuck
unfolding walk
walk-ne-stuck fuel [] n h e = cc
walk-ne-stuck fuel (a ∷ []) n h e = cc
walk-ne-stuck zero (a ∷ b ∷ rest) n h e = absurd (omega arith)
walk-ne-stuck (suc fuel) (a ∷ b ∷ rest) n h e = ground (
  arith,
  length-drop (uint16 a b % 512) rest,
  walk-ne-stuck fuel (drop (uint16 a b % 512) rest)
      (put_tlv (uint16 a b / 512) (take (uint16 a b % 512) rest) n),
)

header_word :
    (t : Tlv)
    → uint16 ((t.0 * 512 + length t.1) / 256) ((t.0 * 512 + length t.1) % 256)
      ≡ t.0 * 512 + length t.1
header_word t = omega arith

header_kind : (t : Tlv) → IsTlv t → (t.0 * 512 + length t.1) / 512 ≡ t.0
header_kind t h = omega arith

header_size : (t : Tlv) → IsTlv t → (t.0 * 512 + length t.1) % 512 ≡ length t.1
header_size t h = omega arith

whole_value : (t : Tlv) (rest : Text) → ltb (length (t.1 ++ rest)) (length t.1) ≡ false
whole_value t rest = ground (arith, length-append t.1 rest)

not_end : (t : Tlv) → IsTlv t → nat_eq t.0 0 ≡ false
not_end t h = ground arith

-- One TLV at the front of the payload is taken as it was put there.
walk-tlv :
    (fuel : ℕ) (t : Tlv) (rest : Text) (n : LldpNeighbor)
    → IsTlv t
    → walk (suc fuel) (tlv_bytes t ++ rest) n ≡ walk fuel rest (put_tlv t.0 t.1 n)
unfolding walk tlv_bytes
walk-tlv fuel t rest n h =
    rw
      (
        header_word t,
        header_kind t h,
        header_size t h,
        take-append t.1 rest,
        drop-append t.1 rest,
        whole_value t rest,
        not_end t h,
      )
      refl

zero_plus : (m : ℕ) → 0 + m ≡ m
zero_plus m = omega arith

suc_plus : (k m : ℕ) → suc k + m ≡ suc (k + m)
suc_plus k m = omega arith

pub append_assoc : {A : Type 0} (xs ys zs : List A) → (xs ++ ys) ++ zs ≡ xs ++ (ys ++ zs)
append_assoc [] ys zs = refl
append_assoc (x ∷ xs) ys zs = rw (append_assoc xs ys zs) refl

-- A payload that was built of TLVs is read as them, then the loop goes on behind it.
pub walk-payload_of :
    (ts : List Tlv) (fuel : ℕ) (rest : Text) (n : LldpNeighbor)
    → All IsTlv ts
    → walk (length ts + fuel) (payload_of ts ++ rest) n ≡ walk fuel rest (put_all ts n)
unfolding payload_of put_all
walk-payload_of [] fuel rest n h = rw (zero_plus fuel) refl
walk-payload_of (t ∷ ts) fuel rest n h =
    rw
      (
        suc_plus (length ts) fuel,
        append_assoc (tlv_bytes t) (payload_of ts) rest,
        walk-tlv (length ts + fuel) t (payload_of ts ++ rest) n h.0,
        walk-payload_of ts fuel rest (put_tlv t.0 t.1 n) h.1,
      )
      refl

-- There are no more TLVs than bytes.
pub length-payload_of : (ts : List Tlv) → length ts ≤ length (payload_of ts)
unfolding payload_of tlv_bytes
length-payload_of [] = omega arith
length-payload_of (t ∷ ts) = omega (arith, length-payload_of ts, length-append t.1 (payload_of ts))
