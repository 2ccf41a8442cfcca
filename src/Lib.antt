-- ===== src/Lib.antt =====
-- The drivers of the sensor packages: the Livox lidar driver, the Ping360 sonar node and the Oculus sonar
-- driver.
--
-- The Livox driver (livox_ros2/livox_driver/src) keeps up to 32 lidars. The SDK's callbacks give frames
-- of points to the data source (`Lds`), which finds the lidar's slot in the index cache and pushes a
-- packet to the slot's ring; a semaphore wakes the publisher (`Lddc`), which empties the rings into ROS
-- messages. The Ping360 node (ping360_ros2/ping360_sonar) turns a sonar head within a sector, in steps
-- of gradians, reads the echoes at each angle and paints them into an image. The Oculus driver
-- (oculus_ros2/oculus_sonar) configures a multibeam sonar and turns its pings into ROS messages.
--
-- - Base: shared names, tests, integers, bits, lists, texts, and runs that may meet undefined behaviour.
-- - Livox/Types: the structures of comm/comm.h and comm/lidar_imu_data_queue.h.
-- - Livox/Queue: the ring of comm/ldq.h and comm/ldq.cpp (`InitQueue`, `QueuePop`, `QueuePushAny`, ...),
--   with its 32-bit running indices; Queue/Invariant, Queue/Window and Queue/Refine hold
--   its theorems. Queue/Threads has the two threads that share a ring without a lock, as a step relation:
--   a step is what lies between two updates of the running indices; Threads/Fifo holds its theorems.
-- - Livox/CacheIndex: comm/cache_index.cpp; CacheIndex/Slots holds its theorems.
-- - Livox/ImuQueue: comm/lidar_imu_data_queue.cpp and comm/semaphore.cpp.
-- - Livox/Lds: lds.cpp and the queue size of comm/comm.cpp; Lds/Storage holds its theorems.
-- - Livox/Lddc: the polling and publishing loops of lddc.cpp; Lddc/Messages has the messages, and
--   Lddc/Drain and Lddc/Distribute the theorems. Lddc/Topics has the publishers, which are created when
--   a message first needs them, and their topics; Topics/Cached and Topics/Distinct hold the theorems.
-- - Livox/DriverNode: the polling threads of livox_driver.cpp and the destructor of driver_node.cpp, as
--   a step relation; DriverNode/Shutdown holds the theorems.
-- - Livox/Comm: the text functions of comm/comm.cpp; Comm/Underlined holds the theorem.
-- - Livox/Callback: call_back/livox_lidar_callback.cpp and lidar_common_callback.cpp; Callback/Answers and
--   Callback/Configure hold the theorems.
-- - Livox/LidarPubHandler and Livox/PubHandler: the two classes of comm/pub_handler.cpp;
--   LidarPubHandler/Points, PubHandler/Timer and PubHandler/Synced hold the theorems.
--   PubHandler/Thread has the thread of the handler, as a step relation; Thread/Exit holds its theorem.
-- - Livox/Config: parse_cfg_file/parse_livox_lidar_cfg.cpp and parse_cfg_file.cpp; Config/Users holds the
--   theorems.
-- - Livox/LdsLidar: lds_lidar.cpp; LdsLidar/Devices holds the theorem.
-- - Ping360/Angles: `configureAngles`, `updateAngle`, `angleCount` and `angleIndex` of
--   src/sonar_interface.cpp; Angles/Divisor, Angles/Aligned and Angles/Turn hold the theorems.
-- - Ping360/Transducer: `configureTransducer` and `read` of the same file; Transducer/Emulated and
--   Transducer/Angle hold the theorems.
-- - Ping360/Sector: src/sector.cpp and include/ping360_sonar/sector.h; Sector/Steps has `nextPoint` and
--   Sector/Order what holds of the columns.
-- - Ping360/Image and Ping360/Scan: `refreshImage` and `publishScan` of src/ping360_node.cpp;
--   Image/Loop, Image/Pixels and Scan/Nearest hold the theorems.
-- - Ping360/Node and Node/Refresh: the configuration of the node and `refresh`, in the same file;
--   Node/Configured and Node/Refresh/Served hold the theorems.
-- - Oculus/Registry: src/sonar_config.cpp; Registry/Codes holds the theorem.
-- - Oculus/SonarImage: include/oculus_sonar/ping_to_sonar_image.hpp; SonarImage/Rows holds the theorem.
-- - Oculus/Publishers: src/oculus_driver_publishers.cpp, with `publishPing` of its header;
--   Publishers/Window and Publishers/Sized hold the theorems.
-- - Oculus/DriverConfig: src/oculus_driver_config.cpp, and the listener that
--   src/oculus_driver_component.cpp adds; DriverConfig/Listener holds the theorems.
-- - Oculus/Connection: the callbacks of src/oculus_driver_component.cpp, the start of
--   src/oculus_connection_manager.cpp and the raw data of src/publishing_data_rx.cpp; Connection/Runs
--   holds the theorems.
-- - Oculus/Converter and Oculus/FanImager: src/polar_to_cartesian.cpp and src/oculus_fan_imager.cpp;
--   Converter/Mapped has what holds of the mapping, and FanImager/Shown the theorems.
-- The modules whose names end in Tests have the theorems at concrete inputs.
--
-- A function of the source is a function of the state it reads and writes, under the source's name in
-- lower case with underscores. A result in Option is `none` where the code has undefined behaviour, or
-- where it throws an exception (Ping360/Node and the modules of Oculus). Floating-point numbers that
-- are only moved are their bit patterns; arithmetic on them is a parameter. A lock makes an operation one step. The loops of the
-- publisher run on fuel, and a loop that has used it up is `running`; the theorem on draining says which
-- fuel is enough. The loop that paints the image runs on fuel too, enough if it exceeds the number
-- of points; its end is `none` as well. The ROS 2 build is modelled.
--
-- Not modelled: the code under BUILDING_ROS1; the copies of other libraries (the Livox SDK, rapidjson,
-- liboculus, ping-cpp), whose calls are parameters; the creation of publishers and timers in the
-- Oculus nodes; the receivers of liboculus; the timer of the Ping360 node; logging; and the Python packages.
pub mod Base
pub mod Livox
pub mod Ping360
pub mod Oculus
