-- ===== src/Fs.antt =====
-- The file system nefs and the swap area (source/fs).
pub mod Wm2ud
pub mod Nefs
