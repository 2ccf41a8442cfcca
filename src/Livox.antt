-- ===== src/Livox.antt =====
-- livox_ros2/livox_driver/src: the Livox LiDAR driver.
mod Tests
mod SetupTests
mod ThreadTests
mod TopicTests
mod NodeTests
mod ServiceTests
pub mod Types
pub mod Queue
pub mod CacheIndex
pub mod ImuQueue
pub mod Lds
pub mod Callback
pub mod LidarPubHandler
pub mod PubHandler
pub mod Config
pub mod LdsLidar
pub mod Comm
pub mod Lddc
pub mod DriverNode
