-- ===== src/Wire.antt =====
-- internal/wire: the packages and snapshots, and the frames of the bus.
pub mod Pack
pub mod Frames
