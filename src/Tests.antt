-- ===== src/Tests.antt =====
-- Concrete runs of the modelled code.
mod Setting
mod Drafts
mod Proposals
mod Cosign
mod Accounts
mod Amounts
mod Auth
mod SignPayloads
mod Memory
mod Otp
mod Wallets
mod SignIn
mod Limits
mod Sessions
mod Bundler
