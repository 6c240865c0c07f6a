-- ===== src/Fs/Link.antt =====
-- fs/file.cc: utimens, links, rename, statfs and access.
pub mod Renaming
use ndnfs_port.Prelude.{ℕ, ◌+◌, ◌-◌, ◌/◌, ◌%◌, ◌^◌, ℤ, pos, Bytes, [], ◌∷◌, ◌++◌}
use ndnfs_port.Exec.{Exec, pure, ◌>>=◌, ◌>>◌}
use ndnfs_port.External.{Env}
use ndnfs_port.External.Types.{TimeSpec, TimeVal}
use ndnfs_port.World.{
  World, buffer, statistics, sys, sys_read, set_files, set_versions, set_segments, give,
}
use ndnfs_port.Fs.Config.{abs_path}

pub to_timeval : TimeSpec → TimeVal
to_timeval t = record { tv_sec = t.tv_sec; tv_usec = t.tv_nsec / 1000 }

module _ (E : Env) where
  unfoldable pub ndnfs_utimens : Bytes → TimeSpec → TimeSpec → Exec (World E) ℤ
  unfolding abs_path to_timeval
  ndnfs_utimens path accessed modified = do
    sys E (λ o. E.posix.utimes o (abs_path E path) (to_timeval accessed) (to_timeval modified))
    pure (pos 0)

  -- `size - 1` is a `size_t`.
  unfoldable pub ndnfs_readlink : Bytes → ℕ → Exec (World E) ℤ
  unfolding abs_path
  ndnfs_readlink path size = do
    target ← sys_read E (λ o. E.posix.readlink o (abs_path E path) ((size + 2 ^ 64 - 1) % 2 ^ 64))
    give E (buffer (target ++ (0 ∷ [])))
    pure (pos 0)

  -- The database is left alone: that part is commented out.
  unfoldable pub ndnfs_symlink : Bytes → Bytes → Exec (World E) ℤ
  unfolding abs_path
  ndnfs_symlink from to = do
    sys E (λ o. E.posix.symlink o (abs_path E from) (abs_path E to))
    pure (pos 0)

  unfoldable pub ndnfs_link : Bytes → Bytes → Exec (World E) ℤ
  unfolding abs_path
  ndnfs_link from to = do
    sys E (λ o. E.posix.link o (abs_path E from) (abs_path E to))
    pure (pos 0)

  -- The tests on `res` between the statements look at the initial 0, so they never fire.
  unfoldable pub ndnfs_rename : Bytes → Bytes → Exec (World E) ℤ
  unfolding abs_path
  ndnfs_rename from to = do
    set_files E (λ rows. E.files.rename rows to from)
    set_versions E (λ rows. E.versions.rename rows to from)
    set_segments E (λ rows. E.segments.rename rows to from)
    sys E (λ o. E.posix.rename o (abs_path E from) (abs_path E to))
    pure (pos 0)

  unfoldable pub ndnfs_statfs : Bytes → Exec (World E) ℤ
  unfolding abs_path
  ndnfs_statfs path = do
    si ← sys_read E (λ o. E.posix.statvfs o (abs_path E path))
    give E (statistics si)
    pure (pos 0)

  unfoldable pub ndnfs_access : Bytes → ℕ → Exec (World E) ℤ
  unfolding abs_path
  ndnfs_access path mask = do
    sys_read E (λ o. E.posix.access o (abs_path E path) mask)
    pure (pos 0)
