-- ===== src/Ids/ExplainRequestId.antt =====
-- `ExplainRequestId` of src/ids.rs: an id that the proxy allocates itself, strictly negative.
use mongod_proxy.Prelude.{ℤ, pos, ltb_ℤ, if◌then◌else◌, Result, ok, err}

pub data ExplainRequestIdError : Type 0 where
  predicate_violated : ExplainRequestIdError

abbrev pub ExplainRequestId : Type 0
ExplainRequestId = ℤ

unfoldable pub try_new : ℤ → Result ExplainRequestIdError ExplainRequestId
try_new n = if ltb_ℤ n (pos 0) then ok n else err predicate_violated
