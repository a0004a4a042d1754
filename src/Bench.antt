-- ===== src/Bench.antt =====
-- bench/: the tools that measure the server.
pub mod RemoteLoad
pub mod Http2Remote
pub mod CheckOverload
pub mod AccessLog
pub mod Floats
pub mod SummarizeOverload
pub mod Overload
pub mod Rotation
pub mod NicSamples
pub mod IdlePressure
pub mod Compare
pub mod UploadClient
pub mod KeepaliveClient
