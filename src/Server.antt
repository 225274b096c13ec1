-- ===== src/Server.antt =====
-- crates/c6-server/src/main.rs: who may do what. The errors, the tables of the database that the
-- checks read, and the headers; how a caller is authenticated and what it is granted are children.
pub mod SecureEq
pub mod Headers
pub mod Tables
pub mod Authenticate
pub mod Access
pub mod Granted
pub mod GitAccess
pub mod Tests
use cresix.Base.{ℕ}
use cresix.Base.Text.{Text}

-- `ApiError`, by its constructors; the first argument of the status and the code go with them.
pub data ApiError : Type 0 where
  unauthenticated : ApiError
  bad forbidden not_found conflict : Text → ApiError
  internal : ApiError

pub record GitHttpError : Type 0 where
  pub status : ℕ
  pub message : Text
