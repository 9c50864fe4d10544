-- ===== src/Stream.antt =====
-- The video streams of src/rtspd.c: what each channel and sub-stream keeps (`Types`), the devices
-- and libraries around them (`Env`), the encoder's parameters (`Param`), opening and closing
-- (`Control`, `Bitstream`), the event loop (`Events`), the staged updates (`Update`),
-- the direct ones (`Direct`), and the start (`Start`, `Config`).
pub mod Types
pub mod Env
pub mod Param
pub mod Monad
pub mod Control
pub mod Bitstream
pub mod Events
pub mod Update
pub mod Start
pub mod Direct
pub mod Config
mod Tests
