-- ===== src/Tests.antt =====
-- Runs of the definitions on small inputs, and the theorems applied to them.
mod Sets
mod Remsets
mod Arrays
mod Locsets
mod Words
mod Summaries
mod Groups
mod Bitmaps
