-- ===== src/Explain/Model.antt =====
-- The typed model of src/serve/explain/model/.
pub mod Text
pub mod Namespace
pub mod Halves
pub mod TreeMap
pub mod FieldBounds
pub mod Bounds
pub mod Command
pub mod OpenVocab
pub mod Stage
pub mod Details
pub mod Trim
pub mod Ranges
pub mod Decode
pub mod Keys
pub mod Express
pub mod Event
use mongod_proxy.Bytes
