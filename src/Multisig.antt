-- ===== src/Multisig.antt =====
-- The multisig accounts of the web app: internal/service/webapp/multisig_*.go over the tables of
-- migrations 000015, 000016 and 000019.
pub mod Tables
pub mod DraftQueries
pub mod Draft
pub mod ProposalQueries
pub mod ExecuteAuth
pub mod Proposal
pub mod Accounts
