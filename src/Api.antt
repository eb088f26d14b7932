-- ===== src/Api.antt =====
-- apis/countermeasure/v1alpha1: the CounterMeasure resource and its validation.
pub mod Types
pub mod Validation
