-- ===== src/Fs/Attribute.antt =====
-- fs/attribute.cc
use ndnfs_port.Prelude.{ℕ, ℤ, pos, Bytes}
use ndnfs_port.Exec.{Exec, pure, ◌>>=◌, ◌>>◌}
use ndnfs_port.External.{Env}
use ndnfs_port.World.{World, attributes, sys, sys_read, give}
use ndnfs_port.Fs.Config.{abs_path}

module _ (E : Env) where
  unfoldable pub ndnfs_getattr : Bytes → Exec (World E) ℤ
  unfolding abs_path
  ndnfs_getattr path = do
    st ← sys_read E (λ o. E.posix.lstat o (abs_path E path))
    give E (attributes st)
    pure (pos 0)

  unfoldable pub ndnfs_chmod : Bytes → ℕ → Exec (World E) ℤ
  unfolding abs_path
  ndnfs_chmod path mode = do sys E (λ o. E.posix.chmod o (abs_path E path) mode); pure (pos 0)

  -- Extended attributes are accepted and dropped.
  unfoldable pub ndnfs_setxattr : Bytes → Bytes → Bytes → ℕ → Exec (World E) ℤ
  ndnfs_setxattr path name value flags = pure (pos 0)
