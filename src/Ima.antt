-- ===== src/Ima.antt =====
-- keylime/ima/: IMA measurement lists, their keys and their validation.
pub mod Keyrings
pub mod Text
pub mod Ast
pub mod Policy
pub mod Inputs
pub mod Process
