-- ===== src/DeviceBank/Fair.antt =====
-- What a fair reservation promises.
pub mod Sound
pub mod Share
