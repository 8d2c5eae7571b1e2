-- ===== src/Text/Print.antt =====
-- How Go prints bytes: `%d` and `%x` of fmt, net.HardwareAddr.String and net.IP.String.
use ngd_ngg_scheduling.Base.{
  ℕ, suc, ◌+◌, ◌-◌, ◌*◌, ◌/◌, ◌%◌, ◌&&◌, List, [], ◌∷◌, ◌++◌, ltb, leb, nat_eq, if◌then◌else◌,
  length, take, drop, list_eq, ℕ_eq,
}
use ngd_ngg_scheduling.Text.{Text}

-- A digit below 16, in lower case.
unfoldable pub hex_digit : ℕ → ℕ
hex_digit d = if ltb d 10 then b'0' + d else b'a' + (d - 10)

unfoldable pub byte_hex : ℕ → Text
unfolding hex_digit
byte_hex b = hex_digit (b / 16) ∷ hex_digit (b % 16) ∷ []

-- `%x` of bytes
unfoldable pub hex : Text → Text
unfolding byte_hex
hex [] = []
hex (b ∷ s) = byte_hex b ++ hex s

-- `%d` of a byte
unfoldable pub byte_decimal : ℕ → Text
byte_decimal b =
    if ltb b 10
    then (b'0' + b) ∷ []
    else if ltb b 100
    then (b'0' + b / 10) ∷ (b'0' + b % 10) ∷ []
    else (b'0' + b / 100) ∷ (b'0' + b / 10 % 10) ∷ (b'0' + b % 10) ∷ []

-- net.HardwareAddr.String
unfoldable pub mac_text : Text → Text
unfolding byte_hex
mac_text [] = []
mac_text (b ∷ []) = byte_hex b
mac_text (b ∷ c ∷ s) = byte_hex b ++ (b':' ∷ mac_text (c ∷ s))

-- Bytes in decimal with dots between, as an IPv4 address is printed.
unfoldable pub dotted : Text → Text
unfolding byte_decimal
dotted [] = []
dotted (b ∷ []) = byte_decimal b
dotted (b ∷ c ∷ s) = byte_decimal b ++ (b'.' ∷ dotted (c ∷ s))

-- Two bytes each, big endian.
unfoldable pub groups : Text → List ℕ
groups (a ∷ b ∷ s) = (a * 256 + b) ∷ groups s
groups _ = []

unfoldable pub leading_zeros : List ℕ → ℕ
leading_zeros [] = 0
leading_zeros (g ∷ gs) = let rest = leading_zeros gs in if nat_eq g 0 then suc rest else 0

-- The first longest run of at least two zero groups: its start and length, from the best so far.
unfoldable pub zero_run : ℕ → ℕ → ℕ → List ℕ → ℕ × ℕ
unfolding leading_zeros
zero_run i start len [] = (start, len)
zero_run i start len (g ∷ gs) =
    let l = leading_zeros (g ∷ gs) in
    if leb 2 l && ltb len l then zero_run (suc i) i l gs else zero_run (suc i) start len gs

-- A group in hexadecimal without leading zeros.
unfoldable pub group_hex : ℕ → Text
unfolding hex_digit
group_hex g =
    let last = hex_digit (g % 16) ∷ [] in
    let third = hex_digit (g / 16 % 16) ∷ last in
    let second = hex_digit (g / 256 % 16) ∷ third in
    if ltb g 16
    then last
    else if ltb g 256
    then third
    else if ltb g 4096
    then second
    else hex_digit (g / 4096) ∷ second

unfoldable pub colons : List ℕ → Text
unfolding group_hex
colons [] = []
colons (g ∷ []) = group_hex g
colons (g ∷ h ∷ gs) = group_hex g ++ (b':' ∷ colons (h ∷ gs))

-- An IPv6 address, where `::` stands for the run of zeros.
unfoldable pub ipv6_text : List ℕ → Text
unfolding zero_run colons
ipv6_text gs =
    let run = zero_run 0 0 0 gs in
    if nat_eq run.1 0
    then colons gs
    else colons (take run.0 gs) ++ (b':' ∷ b':' ∷ colons (drop (run.0 + run.1) gs))

-- net.IP.String of 4 or of 16 bytes; an IPv4 address in 16 bytes is printed as one.
unfoldable pub ip_text : Text → Text
unfolding dotted groups ipv6_text list_eq
ip_text s =
    if nat_eq (length s) 4
    then dotted s
    else if list_eq (take 12 s) (0 ∷ 0 ∷ 0 ∷ 0 ∷ 0 ∷ 0 ∷ 0 ∷ 0 ∷ 0 ∷ 0 ∷ 0xff ∷ 0xff ∷ [])
    then dotted (drop 12 s)
    else ipv6_text (groups s)
