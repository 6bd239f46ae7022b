-- ===== src/Cosign.antt =====
-- The queue of transactions that wait for the signatures of several devices:
-- internal/service/cosign_service.go over the tables of migrations 000008 and 000009.
pub mod Tables
pub mod Service
pub mod Settled
pub mod Signatures
pub mod History
