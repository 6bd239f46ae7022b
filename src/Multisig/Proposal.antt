-- ===== src/Multisig/Proposal.antt =====
-- MultisigProposalService (internal/service/webapp/multisig_proposal_service.go).
pub mod Access
pub mod Usable
pub mod Service
pub mod Owned
pub mod Steps
pub mod Operations
pub mod Approvals
pub mod Creation
pub mod Final
pub mod Unique
pub mod History
pub mod Execution
pub mod Approved
