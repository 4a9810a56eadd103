-- ===== src/Images.antt =====
-- internal/images: uploaded images lose their metadata.
pub mod Bytes
pub mod Exif
pub mod Transform
pub mod Jpeg
pub mod Png
pub mod Strip
