-- ===== src/Explain.antt =====
-- The explain inspector of src/serve/explain/: a layer that sends an `explain` behind each request
-- that can be explained.
pub mod Model
pub mod Classify
pub mod Build
pub mod Envelope
pub mod RequestId
pub mod Shared
pub mod Granted
pub mod Progress
pub mod Parse
pub mod Plan
pub mod PlanShape
pub mod Preview
pub mod Layer
pub mod Transparent
pub mod Recorded
use mongod_proxy.Bson
