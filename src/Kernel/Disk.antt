-- ===== src/Kernel/Disk.antt =====
-- kernel/src/drivers/disk: the ATA driver.
pub mod Ports
pub mod Drive
pub mod Transfer
pub mod Count
pub mod Protocol
pub mod Place
pub mod Wait
pub mod Reading
pub mod Sent
pub mod Sector
pub mod Writing
pub mod RoundTrip
pub mod Edges
pub mod Simulated
mod Tests
