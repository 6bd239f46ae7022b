-- ===== src/Multisig/Draft.antt =====
-- MultisigDraftService: internal/service/webapp/multisig_draft_service.go, with multisig_factory.go and
-- multisig_util.go.
pub mod Serialize
pub mod Factory
pub mod Service
pub mod Deployment
pub mod Apart
pub mod Invariant
pub mod Additions
pub mod Deployed
pub mod History
pub mod Canonical
