-- ===== src/Retrieval.antt =====
-- The retrieval stages of src/decision_memory/application/query.py.
pub mod Ranking
pub mod Lexical
pub mod Semantic
pub mod Fusion
pub mod Stability
pub mod Diversity
mod Tests
