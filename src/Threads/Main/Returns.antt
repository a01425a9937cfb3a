-- ===== src/Threads/Main/Returns.antt =====
-- `main` of the accelerator sample ends, unless a wait does not.
