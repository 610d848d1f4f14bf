-- ===== src/Tests.antt =====
-- Runs of the model on concrete inputs, and the theorems at inputs that meet their hypotheses.
mod Coverage
mod Mutations
mod Queue
mod Pool
mod Loop
mod Round
mod Whole
mod Target
mod Pipes
mod Child
