-- ===== src/Targets.antt =====
-- The fuzz targets: what each builds at start-up and what it does with an input.
pub mod Colors
pub mod Scan
pub mod Readtable
pub mod Grep
pub mod Sprintf
pub mod Rd
pub mod Dcf
pub mod Coerce
pub mod Agrep
pub mod Decompress
pub mod Unserialize
pub mod Zip
pub mod Load
pub mod Connections
pub mod Parse
pub mod Format
pub mod Sort
pub mod Io
pub mod Character
pub mod Text
pub mod Raw
pub mod Whole
pub mod Staging
pub mod Lines
pub mod Datetime
pub mod Encoding
pub mod World
