-- ===== src/Fs/Directory.antt =====
-- fs/directory.cc
use ndnfs_port.Prelude.{ℕ, ℤ, pos, neg, Bytes, Bool, List, [], ◌∷◌, ◌++◌, codes, eqb, if◌then◌else◌}
use ndnfs_port.Exec.{Exec, pure, return, ◌>>=◌, ◌>>◌}
use ndnfs_port.External.{Env}
use ndnfs_port.External.Types.{Dirent}
use ndnfs_port.World.{World, entries, sys, sys_read, give}
use ndnfs_port.Fs.Config.{abs_path, einval}

-- The loop of readdir. `full` says whether `filler`, behind the entries that it has taken, refuses
-- this one.
pub fill : (List Dirent → Dirent → Bool) → List Dirent → List Dirent → List Dirent
fill full taken [] = taken
fill full taken (de ∷ rest) =
    let more = fill full (taken ++ (de ∷ [])) rest in if full taken de then taken else more

module _ (E : Env) where
  unfoldable pub ndnfs_readdir : Bytes → (List Dirent → Dirent → Bool) → Exec (World E) ℤ
  unfolding abs_path fill
  ndnfs_readdir path full = do
    found ← sys_read E (λ o. E.posix.read_dir o (abs_path E path))
    give E (entries (fill full [] found))
    pure (pos 0)

  unfoldable pub ndnfs_mkdir : Bytes → ℕ → Exec (World E) ℤ
  unfolding abs_path
  ndnfs_mkdir path mode = do sys E (λ o. E.posix.mkdir o (abs_path E path) mode); pure (pos 0)

  -- The root directory is refused.
  unfoldable pub ndnfs_rmdir : Bytes → Exec (World E) ℤ
  unfolding abs_path eqb codes
  ndnfs_rmdir path =
      if eqb path (codes "/")
      then return (neg einval)
      else (do sys E (λ o. E.posix.rmdir o (abs_path E path)); pure (pos 0))
