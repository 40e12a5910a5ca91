-- ===== src/Mba.antt =====
-- keylime/mba: the evaluation of event logs of a measured boot.
pub mod Value
pub mod Test
pub mod Steps
pub mod WhyNot
pub mod Builders
pub mod Elchecker
pub mod Accepts
pub mod Once
pub mod Delays
pub mod Dispatch
pub mod Evaluation
pub mod Keys
