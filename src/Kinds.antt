-- ===== src/Kinds.antt =====
-- The objects of Kubernetes, Istio and the monitoring operators that the handlers write, with the
-- fields that the handlers read or write. A field that they never touch is left out: it is the same
-- before and after.
pub mod Core
pub mod Istio
pub mod Monitoring
pub mod Workload
