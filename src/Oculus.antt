-- ===== src/Oculus.antt =====
-- oculus_ros2/oculus_sonar: the driver of the Oculus sonars and its fan image.
pub mod Registry
pub mod SonarImage
pub mod Publishers
pub mod Converter
pub mod DriverConfig
pub mod FanImager
mod Tests
mod PingTests
pub mod Connection
mod ConnectionTests
