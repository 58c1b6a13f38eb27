-- ===== src/Memory.antt =====
-- src/memory: the sorted index that the heap keeps of its holes, and the frames of physical memory.
pub mod OrderedArray
pub mod Frames
