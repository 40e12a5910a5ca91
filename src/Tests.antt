-- ===== src/Tests.antt =====
-- Runs of the model on concrete inputs, at which the theorems with hypotheses are applied.
mod Data
mod Failures
mod Agents
mod Measurements
mod Policies
mod Quotes
mod Polling
mod Answers
mod Boot
mod Objects
mod Replies
