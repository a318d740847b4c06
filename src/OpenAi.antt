-- ===== src/OpenAi.antt =====
-- crates/workflow_engine_llm_openai/src: the provider for the OpenAI interface, in one answer and as
-- a stream of events.
pub mod Provider
pub mod Sse
pub mod Stream
mod Tests
