-- ===== src/Audio.antt =====
-- Audio in src/rtspd.c. `Fifo` models the byte FIFO of a channel (187-196, 380-457).
pub mod Fifo
