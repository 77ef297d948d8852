-- ===== src/Legacy/Connect/Options.antt =====
-- The PSM and the MTU that a connection is made with (bluez/gattlib_connect.c, include/gattlib.h).
use gattlibcpp.Base.{ℕ, ◌*◌, ◌/◌, ◌%◌, ◌^◌, ◌≤◌, ◌<◌, ◌≡◌, refl, false, ◌==◌, arith}
use gattlibcpp.Legacy.Connect.{
  logical, legacy_psm, legacy_mtu, legacy_get_psm, legacy_get_mtu, get_connection_options,
}

logical-le : (n : ℕ) → logical n ≤ 1
logical-le n = ground arith

-- Whatever the options are, the PSM and the MTU that are read from them are 0 or 1. So a PSM of 1 to 1023
-- is encoded and read back as 1, an MTU likewise, and an MTU that is asked for alone gives a PSM of 1.
pub get_connection_options-bounds :
    (options value : ℕ)
    → 0 < value
    → value < 2 ^ 10
    → ((get_connection_options options).1 ≤ 1)
      × ((get_connection_options options).2 ≤ 1)
      × (legacy_get_psm (legacy_psm value) ≡ 1)
      × (legacy_get_mtu (legacy_mtu value) ≡ 1)
      × (legacy_get_psm (legacy_mtu value) ≡ 1)
unfolding get_connection_options legacy_get_psm legacy_get_mtu legacy_psm legacy_mtu
get_connection_options-bounds options value some_value small =
    let psm : (value % 2 ^ 10 * 2 ^ 11 / 2 ^ 11 == 0) ≡ false = ground arith in
    let mtu : (value % 2 ^ 10 * 2 ^ 21 / 2 ^ 21 == 0) ≡ false = ground arith in
    let mixed : (value % 2 ^ 10 * 2 ^ 21 / 2 ^ 11 == 0) ≡ false = ground arith in
    (
      logical-le (options / 2 ^ 11),
      logical-le (options / 2 ^ 21),
      rw psm refl,
      rw mtu refl,
      rw mixed refl,
    )
