-- ===== src/Users.antt =====
-- internal/user: registration, login and the profile of a user.
pub mod Domain
pub mod Hasher
pub mod Repo
pub mod Service
pub mod Http
pub mod Keeps
pub mod Writes
pub mod Valid
pub mod Registered
pub mod SignIn
