-- ===== src/Legacy.antt =====
-- The back end over the BlueZ library, the files of bluez/ that are gattlib's own, as built for BlueZ 5.
pub mod Name
pub mod Scan
pub mod Access
pub mod Connect
pub mod Discover
