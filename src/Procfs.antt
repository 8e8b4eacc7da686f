-- ===== src/Procfs.antt =====
-- internal/procfs: the readers of the kernel's /proc and /sys files.
pub mod Types
pub mod Numbers
pub mod Lines
pub mod Cpus
pub mod Columns
pub mod Keys
pub mod Named
pub mod Trim
pub mod Devices
pub mod Single
pub mod Fuel
pub mod Tables
pub mod Text
pub mod Ports
