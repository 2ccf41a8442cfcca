-- ===== src/Ping360.antt =====
-- ping360_ros2/ping360_sonar: the driver of the Ping360 scanning sonar.
pub mod Angles
pub mod Transducer
pub mod Sector
pub mod Image
pub mod Scan
pub mod Node
