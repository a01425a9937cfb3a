-- ===== src/Common/Errno.antt =====
-- The int that the drivers return: 0, or the negative of an error number of errno.h.
pub data Status : Type 0 where
  ok einval ebusy etimedout enotsup : Status
