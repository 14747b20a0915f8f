-- ===== src/Entities.antt =====
-- The typed entities: include/esphome/api/model/entities and src/model/entities, a module per domain.
pub mod Common
pub mod ObjectId
pub mod Classes
pub mod Casts
pub mod Commands
pub mod BinarySensor
pub mod Sensor
pub mod TextSensor
pub mod Switch
pub mod Light
pub mod Cover
pub mod Fan
pub mod Climate
pub mod Number
pub mod Select
pub mod Text
pub mod Button
pub mod Lock
pub mod MediaPlayer
pub mod Camera
pub mod Siren
pub mod AlarmControlPanel
pub mod Date
pub mod Time
pub mod DateTime
pub mod Valve
pub mod Event
pub mod Update
pub mod WaterHeater
pub mod Infrared
pub mod RadioFrequency
