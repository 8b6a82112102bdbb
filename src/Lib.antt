-- ===== src/Lib.antt =====
-- SMI240 Android HAL: a verification library.
--
-- The program makes the SMI240 accelerometer and gyroscope available to Android, in two families.
-- The HALs 2.0, 2.1, AIDL and multi-HAL (2.X, 2.1, aidl, multihal, common) read each chip from an IIO
-- file in a thread of its own and hand the samples to the framework's message queue. The legacy HAL
-- (legacy) polls both chips in one thread, hands the samples through bounded lists to a second
-- thread, and that one aligns them and writes events to a pipe.
--
-- The HALs 2.0 and 2.1:
--   WakeLock   updateWakeLock of 2.X/Sensors.h, with the two threads that call it (`step`, `run`);
--              what the clock and the power calls answer is an argument.
--   Sensor     class Sensor of 2.X/Sensor.cpp and the settings of common/BoschSensors.h: batch,
--              activate, flush, a round of the run loop, the reading of a file's words.
--   Hal        class Sensors of 2.X/Sensors.h over both: one function for each handler, put together
--              by `handle`; `run` takes any sequence of calls, rounds and reads of the wake lock
--              queue. `find`, `insert` and `modify` are std::map and the shared pointers in it.
--              A step with `faults` uses a null queue or flag in postEvents.
--   Shutdown   the destructor of class Sensor and activate against the run thread, as a step relation,
--              in the two variants that the sources have; the waits and their notification are steps.
--   Aidl       class SensorsHalAidl of aidl/SensorsHalAidl.cpp and SensorsHalAidl.h with its `handle`
--              and `run`, and in Aidl/Sensor class Sensor of aidl/Sensor.cpp: their own status codes,
--              and `none` for the exception of std::stof. Its handlers are compared with those of Hal.
-- The multi-HAL sub-HAL:
--   SubHal     ISensorsSubHalBase of multihal/SensorsSubHal.cpp and, in SubHal/Sensor, class Sensor of
--              multihal/Sensor.cpp, with the posts to the HAL proxy's callback; compared with Hal.
-- The legacy HAL (legacy/sensord and legacy/hal):
--   SimpleList boschsimple_list.cpp on an explicit heap of nodes; refined to a bounded queue.
--              SimpleList/Fifo is that queue, the contract which Acquire is modelled over;
--              SimpleList/Family has several lists on one heap, as class BoschSensor does.
--   ConfigRef  activate_configref_resort of sensord_hwcntl.cpp; refined to an ordered set.
--   Batch      the tables of configurations and batch_configref_resort of sensord_hwcntl.cpp.
--   Popcount   sensord_popcount_32 and sensord_popcount_64 of util_misc.c.
--   SensorTable  bosch_all_sensors and get_sensor_t of sensord_hwcntl.cpp, ap_get_sensorlist of
--              sensord_hwcntl_implement.cpp.
--   Encode     encode_datarate, encode_max_latency, CONVERT_DATARATE_CODE and SMI240_convert_ODR.
--   Legacy     ap_activate, ap_batch and ap_flush of sensord_hwcntl_implement.cpp over
--              ConfigRef, Batch, SensorTable and Encode.
--   Algo       sort_input_samples and sensord_algo_process of sensord_algo.cpp.
--   Remap      hw_remap_sensor_data of axis_remap.c.
--   Scan       sysfs_extract_numbers of sensord_hwcntl_implement.cpp, on a list of bytes.
--   Acquire    the way of a sample: the polls and IMU_hw_deliver_sensordata of
--              sensord_hwcntl_implement.cpp, sensord_read_rawdata of sensord.cpp, and
--              sensord_algo_process of sensord_algo.cpp with its allocations, which uses Algo.
--              Acquire/Threads puts them into the loops hwcntl_main and sensord_main and lets the two
--              threads interleave around the mutex and the condition; the sequence of steps stands for
--              the scheduler. Acquire/Heap goes back from the contract of the lists to their nodes.
--   PollEvents pollEvents of hal/sensors.cpp and read_events of hal/BoschSensor.cpp at the other end
--              of the pipe.
--   Lifecycle  open_sensors and poll__close of hal/sensors.cpp, the constructor and the destructor of
--              hal/BoschSensor.cpp, hwcntl_init, and between them the handlers of Legacy and the lines
--              that the threads write to the logs of PlatformLog.
--   PlatformLog  sensord_pltf.c: the trace and the data logs, over streams that are opened and closed.
--              It is used by Lifecycle; the other parts leave out the calls that log.
-- Prelude holds the helpers: Boolean tests, list operations, integers over the native naturals, and
-- the interface `Float` that stands for the floating-point types; laws that a theorem needs of them
-- are hypotheses of that theorem.
--
-- Conventions. An operation that may fault gives an Option, with `none` for a fault: an access
-- through an invalid pointer, outside an array or to a thread that was not created, a division by 0,
-- or an exception that nothing catches. Unsigned arithmetic wraps where the source's does
-- (`% 2 ^ 32`); times and periods are nanoseconds or milliseconds since boot, which stay far below
-- the limit of int64_t, and are not wrapped. Locks are not modelled but in Shutdown: what runs under
-- one lock is one step.
--
-- Fuel. `truncate` and `list_clean` run on the length of the list, of which each round takes one;
-- `align_from` on the number of samples, of which each round takes one at least; `resort_from` and
-- `find_ref` on the bounds of their C loops; `drain` on the length of the shared list, of which each
-- round takes one. `poll` and `poll_from` go through the list of what read() and poll() give.
--
-- Not modelled: the HAL proxy (Android's own sources), file access, signals and the main functions.
-- That a write() of an event to the legacy HAL's pipe fails or blocks is left out as well.
mod Prelude
pub mod Legacy
pub mod WakeLock
pub mod SimpleList
pub mod ConfigRef
pub mod Encode
pub mod Sensor
pub mod Hal
pub mod Aidl
pub mod SubHal
pub mod Algo
pub mod Scan
pub mod Acquire
pub mod PollEvents
pub mod Lifecycle
pub mod Batch
pub mod Shutdown
pub mod Remap
pub mod Popcount
pub mod SensorTable
pub mod PlatformLog
