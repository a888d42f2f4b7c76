-- ===== src/Accounts.antt =====
-- The accounts of the web application: models/user.go, helpers/auth.go and the handlers of
-- controllers/main.go for registration, sessions, passwords and e-mail addresses.
pub mod Tables
pub mod Site
pub mod SignUp
pub mod SignIn
pub mod Passwords
pub mod Settings
pub mod Rows
pub mod Unique
pub mod Routes
