-- ===== src/Auth.antt =====
-- Users, wallets and their refresh tokens: internal/service/auth_service.go and
-- internal/service/walletsig.go over the tables of migrations 000001, 000004, 000006 and 000010.
pub mod Tables
pub mod Service
pub mod Rotation
pub mod History
