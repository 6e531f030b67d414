-- ===== src/Llm.antt =====
-- The gateway to the models: src/lib/clients/llm.
pub mod Spend
pub mod PromptCache
pub mod Router
