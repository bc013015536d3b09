-- ===== src/Docs.antt =====
-- Markdown files in chunks: src/codekg/docs.py.
pub mod Blank
pub mod Chunks
pub mod Cover
pub mod Descriptions
pub mod Fences
pub mod Headings
pub mod Layout
pub mod Mentions
pub mod Outline
pub mod Ranges
pub mod Sections
mod Tests
pub mod Tiling
pub mod Fenced
pub mod Written
