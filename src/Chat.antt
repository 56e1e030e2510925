-- ===== src/Chat.antt =====
-- The chat of a room as the user interface shows it, src/chat_model.cpp.
mod Model
mod Marked
mod Told
mod Tests
