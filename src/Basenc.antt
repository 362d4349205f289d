-- ===== src/Basenc.antt =====
-- basenc of annotated_Dataset-1/basenc.c, built with BASE_TYPE 42.
pub mod Codec
pub mod Laws
pub mod Base16
pub mod Base2
pub mod Z85
pub mod Translate
pub mod Wrap
pub mod Stream
pub mod Programs
mod Examples
