-- ===== src/Tests.antt =====
-- Runs of the model on concrete inputs, and the theorems with hypotheses applied to some.
mod Wires
mod Steers
mod Logs
mod Clearings
mod Usages
mod Outputs
mod Histories
mod Plans
mod Gates
mod Asks
mod Replies
mod Catalogs
