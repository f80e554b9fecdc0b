-- ===== src/Tests.antt =====
-- Concrete runs of the models, and the theorems at concrete inputs.
mod HttpTests
mod UtilTests
mod ConfigTests
mod LimitTests
mod LoadTests
mod CompressTests
mod ReadTests
mod ServerTests
mod StaticTests
mod ProxyTests
mod Http2Tests
