-- ===== src/Message.antt =====
-- Configuration messages: src/processMsg.c.
pub mod Vars
pub mod Keys
pub mod Session
pub mod Row
pub mod Encode
pub mod Quality
pub mod Picture
pub mod Network
pub mod Alarm
pub mod Mail
pub mod System
pub mod Act
pub mod Process
pub mod Written
pub mod Filed
pub mod Stored
pub mod Kept
pub mod Induct
pub mod Lossless
pub mod Range
pub mod Trip
pub mod Preset
mod Tests
