-- ===== src/Witnesses.antt =====
-- Concrete inputs of the modelled program: each theorem with hypotheses is applied to one of them,
-- and runs of the definitions are compared with what the source returns.
mod Explained
mod Selection
mod Catalog
mod Shop
mod Replacement
mod Grounded
mod Studio
