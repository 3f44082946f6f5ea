-- ===== src/Api.antt =====
-- api/v1alpha1: the custom resources and the Kubernetes types that they are made of.
pub mod Meta
pub mod Core
pub mod Types
pub mod Merge
pub mod Webhook
