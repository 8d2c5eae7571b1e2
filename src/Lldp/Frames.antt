-- ===== src/Lldp/Frames.antt =====
-- parseLLDPFrame on whole Ethernet frames.
use ngd_ngg_scheduling.Base.{
  ℕ, zero, suc, ◌+◌, ◌-◌, ◌/◌, ◌%◌, ◌<◌, ◌≡◌, refl, sym, ◌≢◌, Bool, true, false, ◌&&◌, List, [],
  ◌∷◌, ◌++◌, none, some, All, length, length-append, take, drop, arith, ltb, leb, nat_eq,
}
use ngd_ngg_scheduling.Text.{Text}
use ngd_ngg_scheduling.Text.Print.{mac_text}
use ngd_ngg_scheduling.Lldp.{
  LldpNeighbor, no_neighbor, uint16, Walk, finished, malformed, stuck, walk, is_complete, answer,
  parse_lldp_frame,
}
use ngd_ngg_scheduling.Lldp.Tlvs.{
  Tlv, IsTlv, payload_of, put_all, walk-ne-stuck, walk-payload_of, length-drop, take-append,
  drop-append, append_assoc, length-payload_of,
}

answer-none : (w : Walk) → answer w ≡ none → w ≡ stuck
unfolding answer
answer-none (finished n) e = cc
answer-none malformed e = cc
answer-none stuck e = refl

-- The parser returns on every frame: its loop never runs out of fuel, whatever the bytes are.
pub parse_lldp_frame_ends :
    (frame local_interface : Text) → parse_lldp_frame frame local_interface ≢ none
unfolding parse_lldp_frame
parse_lldp_frame_ends frame local_interface e =
    grind (arith, answer-none, walk-ne-stuck, length-drop 14 frame)

take_front : {A : Type 0} (k : ℕ) (xs ys : List A) → length xs ≡ k → take k (xs ++ ys) ≡ xs
take_front k xs ys h = rw (sym h) (take-append xs ys)

drop_front : {A : Type 0} (k : ℕ) (xs ys : List A) → length xs ≡ k → drop k (xs ++ ys) ≡ ys
drop_front k xs ys h = rw (sym h) (drop-append xs ys)

-- An Ethernet frame of the LLDP protocol.
abbrev pub frame_of : Text → Text → Text → Text
frame_of destination source payload = destination ++ (source ++ (0x88 ∷ 0xcc ∷ payload))

-- The neighbour that the parser begins with.
abbrev pub sender : Text → Text → Text → LldpNeighbor
sender local_interface destination source = record no_neighbor {
  local_interface = local_interface;
  destination_mac = mac_text destination;
  source_mac = mac_text source;
}

-- Where the loop stops: less than a header is left, or a whole TLV of type 0.
abbrev pub is_end : Text → Bool
is_end (a ∷ b ∷ rest) = nat_eq (uint16 a b / 512) 0 && leb (uint16 a b % 512) (length rest)
is_end _ = true

-- A header that promises more bytes than there are.
abbrev pub is_truncated : Text → Bool
is_truncated (a ∷ b ∷ rest) = ltb (length rest) (uint16 a b % 512)
is_truncated _ = false

walk-end :
    (k : ℕ) (tail : Text) (n : LldpNeighbor)
    → 0 < k
    → is_end tail ≡ true
    → walk k tail n ≡ finished n
unfolding walk
walk-end k [] n h e = refl
walk-end k (a ∷ []) n h e = refl
walk-end zero (a ∷ b ∷ rest) n h e = absurd (omega arith)
walk-end (suc k) (a ∷ b ∷ rest) n h e = ground arith

walk-truncated :
    (k : ℕ) (tail : Text) (n : LldpNeighbor)
    → 0 < k
    → is_truncated tail ≡ true
    → walk k tail n ≡ malformed
unfolding walk
walk-truncated k [] n h e = cc
walk-truncated k (a ∷ []) n h e = cc
walk-truncated zero (a ∷ b ∷ rest) n h e = absurd (omega arith)
walk-truncated (suc k) (a ∷ b ∷ rest) n h e = ground arith

module _ (destination source local_interface : Text) (ts : List Tlv) (tail : Text)
    (six : length destination ≡ 6) (six' : length source ≡ 6) (good : All IsTlv ts) where
  abbrev frame : Text
  frame = frame_of destination source (payload_of ts ++ tail)

  -- The fuel that the TLVs leave.
  abbrev spare : ℕ
  spare = length frame - length ts

  length-frame : length frame ≡ 14 + (length (payload_of ts) + length tail)
  length-frame = omega (
    arith,
    length-append destination (source ++ (0x88 ∷ 0xcc ∷ (payload_of ts ++ tail))),
    length-append source (0x88 ∷ 0xcc ∷ (payload_of ts ++ tail)),
    length-append (payload_of ts) tail,
  )

  spare_positive : 0 < spare
  spare_positive = omega (arith, length-frame, length-payload_of ts)

  fuel_split : length frame ≡ length ts + spare
  fuel_split = omega (arith, length-frame, length-payload_of ts)

  behind_addresses : drop 12 frame ≡ 0x88 ∷ 0xcc ∷ (payload_of ts ++ tail)
  behind_addresses =
      rw (sym (append_assoc destination source (0x88 ∷ 0xcc ∷ (payload_of ts ++ tail)))) (
        drop_front 12 (destination ++ source) (0x88 ∷ 0xcc ∷ (payload_of ts ++ tail))
          (omega (arith, length-append destination source)))

  behind_type : drop 14 frame ≡ payload_of ts ++ tail
  behind_type =
      rw
        (
          sym (append_assoc source (0x88 ∷ 0xcc ∷ []) (payload_of ts ++ tail)),
          sym (append_assoc destination (source ++ (0x88 ∷ 0xcc ∷ [])) (payload_of ts ++ tail)),
        )
        (drop_front 14 (destination ++ (source ++ (0x88 ∷ 0xcc ∷ []))) (payload_of ts ++ tail) (
          omega (
            arith,
            length-append destination (source ++ (0x88 ∷ 0xcc ∷ [])),
            length-append source (0x88 ∷ 0xcc ∷ []),
          )))

  long_enough : ltb (length frame) 14 ≡ false
  long_enough = ground (arith, length-frame)

  parse_lldp_frame-walk :
      (k : ℕ)
      → length frame ≡ length ts + k
      → parse_lldp_frame frame local_interface
        ≡ answer (walk k tail (put_all ts (sender local_interface destination source)))
  unfolding parse_lldp_frame
  parse_lldp_frame-walk k split =
      rw
        (
          long_enough,
          behind_addresses,
          behind_type,
          split,
          drop_front 6 destination (source ++ (0x88 ∷ 0xcc ∷ (payload_of ts ++ tail))) six,
          take_front 6 destination (source ++ (0x88 ∷ 0xcc ∷ (payload_of ts ++ tail))) six,
          take_front 6 source (0x88 ∷ 0xcc ∷ (payload_of ts ++ tail)) six',
          walk-payload_of ts k tail (sender local_interface destination source) good,
        )
        refl

  -- A frame of whole TLVs, then an End TLV or the end of the frame, with any padding behind it: the
  -- parser takes each TLV as it was put into the frame, in that order, and calls the neighbour
  -- valid exactly if it has a chassis, a port and a positive time to live.
  pub parse_lldp_frame-frame_of :
      is_end tail ≡ true
      → parse_lldp_frame (frame_of destination source (payload_of ts ++ tail)) local_interface
        ≡ some (
          put_all ts (sender local_interface destination source),
          is_complete (put_all ts (sender local_interface destination source)),
        )
  unfolding answer
  parse_lldp_frame-frame_of ends =
      rw
        (
          parse_lldp_frame-walk spare fuel_split,
          walk-end spare tail (put_all ts (sender local_interface destination source))
              spare_positive ends,
        )
        refl

  -- A frame of whole TLVs and then one that promises more bytes than there are is rejected as a
  -- whole: nothing of the TLVs before it is kept.
  pub parse_lldp_frame_truncated :
      is_truncated tail ≡ true
      → parse_lldp_frame (frame_of destination source (payload_of ts ++ tail)) local_interface
        ≡ some (no_neighbor, false)
  unfolding answer
  parse_lldp_frame_truncated short =
      rw
        (
          parse_lldp_frame-walk spare fuel_split,
          walk-truncated spare tail (put_all ts (sender local_interface destination source))
              spare_positive short,
        )
        refl
