-- ===== src/Uuid.antt =====
-- The UUID functions of common/gattlib_common.c. The bytes of a 128-bit UUID are a list of 16
-- numbers, most significant first.
pub mod Expand
use Prim.Native.Nat.{bit_and}
use gattlibcpp.Base.{
  ℕ, zero, suc, ◌+◌, ◌-◌, ◌*◌, ◌/◌, ◌%◌, ◌^◌, ◌≡◌, Bool, true, false, ◌&&◌, Option, none, some,
  List, [], ◌∷◌, ◌++◌, ◌==◌, ltb, if◌then◌else◌, ◌>>=◌, get_or, drop,
}
use gattlibcpp.World.{Text, codes, Uuid, uuid16, uuid32, uuid128, unspec}
use gattlibcpp.ObjectPath.{snprintf}

-- A `bt_uuid_t` of the BlueZ library.
pub data BtUuid : Type 0 where
  bt_uuid16 : ℕ → BtUuid
  bt_uuid32 : ℕ → BtUuid
  bt_uuid128 : List ℕ → BtUuid
  bt_unspec : ℕ → BtUuid

unfoldable pub bt_uuid_to_uuid : BtUuid → Uuid
bt_uuid_to_uuid (bt_uuid16 v) = uuid16 v
bt_uuid_to_uuid (bt_uuid32 v) = uuid32 v
bt_uuid_to_uuid (bt_uuid128 data') = uuid128 data'
bt_uuid_to_uuid (bt_unspec t) = unspec 0

-- `gattlib_string_to_uuid`, over BlueZ's `bt_string_to_uuid`, which gives an error code or a UUID.
-- Without success the caller's UUID stays unset.
pub data Parsed : Type 0 where
  failed : ℕ → Parsed
  parsed : BtUuid → Parsed

unfoldable pub string_to_uuid : (Text → Parsed) → Text → ℕ × Option Uuid
string_to_uuid bt_string_to_uuid s = elim (bt_string_to_uuid s) [
  | failed code ↦ (code, none)
  | parsed u ↦ (0, some (bt_uuid_to_uuid u))
]

abbrev pub hex_digit : ℕ → ℕ
hex_digit d = if ltb d 10 then 48 + d else 87 + d

-- `%.kx`, for a number of at most `k` digits.
unfoldable pub hex : ℕ → ℕ → Text
hex zero n = []
hex (suc k) n = hex k (n / 16) ++ hex_digit (n % 16) ∷ []

-- `%d` of a `uint8_t`.
abbrev pub decimal : ℕ → Text
decimal n =
    if ltb n 10
    then (48 + n) ∷ []
    else if ltb n 100
    then (48 + n / 10) ∷ (48 + n % 10) ∷ []
    else (48 + n / 100) ∷ (48 + n / 10 % 10) ∷ (48 + n % 10) ∷ []

-- `memcpy` of four or two bytes into an integer of a little-endian host.
abbrev pub load32 : List ℕ → ℕ → ℕ
load32 b i =
    get_or b i 0
    + get_or b (i + 1) 0 * 2 ^ 8
    + get_or b (i + 2) 0 * 2 ^ 16
    + get_or b (i + 3) 0 * 2 ^ 24

abbrev pub load16 : List ℕ → ℕ → ℕ
load16 b i = get_or b i 0 + get_or b (i + 1) 0 * 2 ^ 8

-- `ntohl` and `ntohs` of such a host turn the bytes round.
abbrev pub ntohl : ℕ → ℕ
ntohl n =
    n % 2 ^ 8 * 2 ^ 24
    + n / 2 ^ 8 % 2 ^ 8 * 2 ^ 16
    + n / 2 ^ 16 % 2 ^ 8 * 2 ^ 8
    + n / 2 ^ 24 % 2 ^ 8

abbrev pub ntohs : ℕ → ℕ
ntohs n = n % 2 ^ 8 * 2 ^ 8 + n / 2 ^ 8 % 2 ^ 8

-- "%.8x-%.4x-%.4x-%.4x-%.8x%.4x"
unfoldable pub print128 : List ℕ → Text
print128 b =
    hex 8 (ntohl (load32 b 0))
    ++ b'-'
      ∷ (hex 4 (ntohs (load16 b 4))
          ++ b'-'
            ∷ (hex 4 (ntohs (load16 b 6))
                ++ b'-'
                  ∷ (hex 4 (ntohs (load16 b 8))
                      ++ b'-' ∷ (hex 8 (ntohl (load32 b 10)) ++ hex 4 (ntohs (load16 b 14))))))

-- -1 as a 32-bit pattern
abbrev pub minus_one : ℕ
minus_one = 0xffff_ffff

unfoldable pub uuid_to_string : Uuid → ℕ → ℕ × Text
uuid_to_string (uuid16 v) n = (0, snprintf n (codes "0x" ++ hex 4 v))
uuid_to_string (uuid32 v) n = (0, snprintf n (codes "0x" ++ hex 8 v))
uuid_to_string (uuid128 b) n = (0, snprintf n (print128 b))
uuid_to_string (unspec t) n = (minus_one, snprintf n (codes "Unsupported type:" ++ decimal t))

-- The bytes that the code writes before it puts a short UUID in.
abbrev pub base_tail : List ℕ
base_tail = 0x9B ∷ 0x35 ∷ 0x49 ∷ 0x33 ∷ 0x9B ∷ 0x10 ∷ 0x52 ∷ 0xFF ∷ 0xA9 ∷ 0x74 ∷ 0x00 ∷ 0x42 ∷ []

unfoldable pub uuid_to_uuid128 : Uuid → Uuid
uuid_to_uuid128 (uuid128 b) = uuid128 b
uuid_to_uuid128 (uuid32 v) =
    uuid128
      ((v / 2 ^ 24 % 2 ^ 8) ∷ (v / 2 ^ 16 % 2 ^ 8) ∷ (v / 2 ^ 8 % 2 ^ 8) ∷ (v % 2 ^ 8) ∷ base_tail)
uuid_to_uuid128 (uuid16 v) = uuid128 (0xEF ∷ 0x68 ∷ (v / 2 ^ 8 % 2 ^ 8) ∷ (v % 2 ^ 8) ∷ base_tail)
uuid_to_uuid128 (unspec t) = uuid128 (0xEF ∷ 0x68 ∷ 0x00 ∷ 0x00 ∷ base_tail)

-- `memcmp` of the 16 bytes, as a test for equality.
unfoldable pub same_bytes : List ℕ → List ℕ → Bool
same_bytes [] [] = true
same_bytes [] (y ∷ ys) = false
same_bytes (x ∷ xs) [] = false
same_bytes (x ∷ xs) (y ∷ ys) = x == y && same_bytes xs ys

abbrev pub bytes_of : Uuid → List ℕ
bytes_of (uuid128 b) = b
bytes_of _ = []

abbrev pub zero_or_two : Bool → ℕ
zero_or_two true = 0
zero_or_two false = 2

-- UUIDs of different types are compared in their long forms.
abbrev pub cmp_long : Uuid → Uuid → ℕ
cmp_long u v =
    zero_or_two (same_bytes (bytes_of (uuid_to_uuid128 u)) (bytes_of (uuid_to_uuid128 v)))

unfoldable pub uuid_cmp : Uuid → Uuid → ℕ
unfolding same_bytes uuid_to_uuid128
uuid_cmp (uuid16 a) (uuid16 b) = zero_or_two (a == b)
uuid_cmp (uuid32 a) (uuid32 b) = zero_or_two (a == b)
uuid_cmp (uuid128 a) (uuid128 b) = zero_or_two (same_bytes a b)
uuid_cmp (unspec s) (unspec t) = if s == t then 3 else cmp_long (unspec s) (unspec t)
uuid_cmp u v = cmp_long u v
