-- ===== src/Hotspot.antt =====
-- The hot-spot parameters of core/hotspot.
pub mod Lru
pub mod Rule
pub mod Controller
pub mod TrafficShaping
pub mod Args
pub mod Slot
pub mod InFlight
