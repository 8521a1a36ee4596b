-- ===== src/Optimizer.antt =====
-- src/optimizer/: the calibration of the pre-filter's floor.
pub mod Calibrate
pub mod Tests
