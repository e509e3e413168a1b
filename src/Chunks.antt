-- ===== src/Chunks.antt =====
-- The windows over a long unit of legal text: `_validate_settings` and `_window_pieces_with_offsets`
-- of backend/src/lawyer_agent/application/legal_chunk_structure.py. A text is the list of its code
-- points.
pub mod Windows
pub mod Coverage
