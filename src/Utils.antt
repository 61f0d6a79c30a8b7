-- ===== src/Utils.antt =====
-- internal/utils: the pseudo devices and the device metrics.
pub mod PseudoDevice
pub mod Metrics
pub mod Interval
