-- ===== src/Shared.antt =====
-- libs/shared: the code that the two services share.
pub mod Pipeline
pub mod Models
