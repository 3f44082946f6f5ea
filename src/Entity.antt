-- ===== src/Entity.antt =====
-- domain/entity: the keys of labels and annotations, and the operator's configuration.
pub mod Keys
pub mod ConfigMap
