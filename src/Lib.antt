-- ===== src/Lib.antt =====
-- Verification of latch-api, the backend of the Latch wallet (Go).
--
-- The modelled parts are how users and wallets come in (one-time passwords, nonces, passkey assertions,
-- the sign-in of wallets, refresh tokens, rate limits), signing payloads that one device stores and
-- another fetches, amounts, the queue of cosign requests, in which the devices of a wallet collect
-- signatures of one transaction, and the multisig accounts of the web app: smart accounts on Stellar
-- that several signers control. A creator collects the signers in a draft, by hand or by an invite link;
-- the draft is deployed as an account; then operations of the account are proposed, approved by its
-- members and executed once a threshold of approvals is stored.
--
-- The files, and the code that they model:
--   Common     shared notation, lists, texts and sorting. Common/Database is the monad of database calls:
--              any call can fail, and then changes nothing. Common/Ends is its program logic.
--   External   the packages outside of the repository: uuid, strkey, sha256.
--   Signers    internal/service/webapp/multisig_signers.go: `validateDraftMember`,
--              `duplicateMemberError`, `memberFingerprint`, `draftMembersToFactorySigners`.
--   Multisig/Tables, DraftQueries, ProposalQueries
--              internal/db/generated: the rows of models.go and the queries of
--              webapp_multisig_drafts.sql.go, webapp_multisig_accounts.sql.go and
--              webapp_multisig_proposals.sql.go, over lists of rows, with the unique constraints of the
--              migrations 000015, 000016 and 000019.
--   Multisig/Draft
--              multisig_draft_service.go and multisig_factory.go, each method under its name in snake
--              case: Serialize, Factory, Service, Deployment; the proofs are in Apart, Invariant,
--              Additions, Deployed, Canonical and History.
--   Multisig/ExecuteAuth
--              multisig_execute_auth.go: which approvals are used, and the entries submitted.
--   Multisig/Proposal
--              multisig_proposal_service.go: Access has the ownership look-ups, Usable
--              the rows and which approvals count, Service the operations.
--              Steps is the abstract view, a step relation; Operations, Approvals and Creation relate
--              each operation to it; Final and Unique are invariants of it; History is about sequences
--              of requests, Execution and Approved are about what a success means.
--   Multisig/Accounts
--              multisig_accounts_service.go: accounts from one list of signers, without a draft:
--              `validateSignerInits`, `canonicalizeSignerInits`, `DraftParams` and `DeployParams`.
--   Cosign     internal/service/cosign_service.go and internal/db/generated/cosign.sql.go, the queue of
--              transactions that wait for the signatures of several devices: Tables, Service, and the
--              proofs in Settled, Signatures and History.
--   Amount     internal/service/webapp/amount.go and `i128LessThan`: Digits, Padded and Parse are
--              about reading an amount, Fraction about printing one, RoundTrip about both.
--   Auth       internal/service/auth_service.go with the queries of users.sql.go and
--              refresh_tokens.sql.go: Tables, Service, Rotation (what a rotation of a refresh token
--              does) and History (any requests).
--   SignPayload
--              internal/service/webapp/signpayload_service.go and webapp_sign_payloads.sql.go: Create,
--              Spent, Consume.
--   Redis      the commands of the Redis client that the next parts use, with their documented laws.
--   Otp        internal/service/otp.go: Guesses (one guess) and Attempts (any number of them).
--   WalletNonce
--              internal/service/wallet_nonce.go and `Resolve` of internal/deploynet/deploynet.go:
--              Held (one nonce among any requests), SingleUse and Binding.
--   WebAuthn   internal/service/webauthn_signin.go: Origin, Assertion, Keys (the scan of an account's
--              context rules) and Distinct.
--   WalletSignIn
--              internal/service/wallet_auth_service.go and `VerifyEd25519` of walletsig.go, over Redis
--              and the tables of Auth together: Verified.
--   RateLimit  internal/middleware/ratelimit.go: Window.
--   Sessions   internal/service/webapp/session_service.go with the queries of webapp_sessions.sql.go,
--              webapp_users.sql.go and webapp_session_proved_credentials.sql.go: Resolve (what a cookie
--              resolves to) and Proved.
--   BundlerPolicy
--              internal/service/bundler_policy.go: Allowed.
--   Tests      concrete runs; Tests/Memory is a Redis in memory.
--
-- Text is a list of character codes and a UUID is the number of its bytes. Status and source columns are
-- data types of their values; 32-bit columns and thresholds are plain numbers, but for the conversions
-- to 32 bits of the ledger sequence and of a cosign request's threshold, and the lengths of columns are
-- not bounded. Times are in milliseconds and are read where the code calls `time.Now`; the database's
-- NOW() has a clock of its own in SignPayload, and is the service's elsewhere. Windows of the rate
-- limiter are in whole seconds, in which the lifetime of EXPIRE is given. The words of an amount are plain numbers below 2^63 and
-- 2^64. There is no recursion on fuel: every loop of this code runs over a list, the digits of a number
-- by accessibility, or the scan of context rules over the ids that its limit leaves. Requests are served one
-- after the other; interleavings of two requests are not modelled. A pipeline of Redis is one call,
-- which fails as a whole.
--
-- Parameters: SmartAccountFactory stands for the XDR of the init parameters and the on-chain factory,
-- Columns for what Postgres keeps of a JSON text and of a time, AuthCodec for the XDR of auth entries,
-- Chain for the Soroban node, the bundler and the building of an
-- operation's simulated artifacts, Issuer for the signing of JWTs, Redis for the Redis server, P256 and
-- Ed25519 for the cryptography and the decoding of client data, AccountReader for read-only simulations
-- of an account, the decoding of an envelope and the encoding of a contract's address in BundlerPolicy,
-- and an optional Url for what net/url makes of a callback.
--
-- Not modelled: the reads `ListProposals` and `GetProposal`, `RegisterAccount` and `ListAccounts` of
-- multisig_accounts_service.go, the other services (transactions, notifications,
-- memberships, backups), the HTTP handlers, configuration and start-up.
pub mod Common
pub mod External
pub mod Redis
pub mod Otp
pub mod WebAuthn
pub mod WalletSignIn
pub mod RateLimit
pub mod Sessions
pub mod BundlerPolicy
pub mod WalletNonce
pub mod Signers
pub mod Multisig
pub mod Amount
pub mod Auth
pub mod SignPayload
pub mod Cosign
pub mod Tests
