-- ===== src/Markdown.antt =====
-- src/markdown.c: the conversion of Markdown to HTML.
pub mod Buffer
pub mod Escape
pub mod Url
pub mod Inline
pub mod Lines
pub mod Table
pub mod Blocks
