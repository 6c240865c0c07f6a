-- ===== src/Fs/Release.antt =====
-- fs/file.cc: ndnfs_release, which records a new version of a written file and signs its segments.
pub mod Frame
pub mod Signing
pub mod Publishing
pub mod Overflow
pub mod Descriptors
use ndnfs_port.Prelude.{ℕ, zero, suc, ℤ, pos, Bytes, none, to_int, length, ◌==◌, if◌then◌else◌}
use ndnfs_port.Exec.{Exec, next, or_fuel, pure, return, call, ◌>>=◌, ◌>>◌}
use ndnfs_port.External.{Env}
use ndnfs_port.External.Posix.{o_rdonly}
use ndnfs_port.World.{World, sys, try, sys_read, set_versions}
use ndnfs_port.Fs.Config.{seg_size, abs_path}
use ndnfs_port.Fs.Segment.{segment_to_size, sign_segment}
use ndnfs_port.Fs.Version.{succeeded}
use ndnfs_port.Fs.File.{access_mode, current_row}

-- The rounds that the loop below may take: past 2 ^ 18 segments the offset is negative.
abbrev pub max_rounds : ℕ
max_rounds = 262145

module _ (E : Env) where
  -- while (size == seg_size) { size = pread(…); sign_segment(…); seg++; }
  pub sign_loop : ℕ → ℕ → Bytes → ℤ → ℕ → Exec (World E) (Unit {0})
  unfolding segment_to_size
  sign_loop zero fd path ver seg = or_fuel none
  sign_loop (suc fuel) fd path ver seg = do
    chunk ← sys_read E (λ o. E.posix.pread o fd seg_size (segment_to_size (to_int seg)))
    call (sign_segment E path ver (to_int seg) chunk)
    let rest = sign_loop fuel fd path ver (suc seg)
    if length chunk == seg_size then rest else pure tt

  unfoldable pub set_current_version : Bytes → ℤ → Exec (World E) ℤ
  set_current_version path ver w =
      let (res, rows) = E.files.update w.files path (λ row. record row { current_version = ver }) in
      (next res, record w { files = rows })

  -- The part that runs for a file that was not opened read-only, with a bound on the rounds of the loop:
  -- where it is met, the state is the one behind these rounds.
  unfoldable pub publish_within : ℕ → Bytes → ℤ → Exec (World E) ℤ
  unfolding set_current_version
  publish_within rounds path ver = do
    res ← set_current_version path ver
    if succeeded res
        then (do
          set_versions E (λ rows. E.versions.insert rows (path, ver) (record { size = none }))
          fd ← sys E (λ o. E.posix.open_file o (abs_path E path) o_rdonly 0)
          sign_loop rounds fd path ver 0
          try E (λ o. E.posix.close_file o fd)
          pure (pos 0))
        else return res

  abbrev pub publish : Bytes → ℤ → Exec (World E) ℤ
  publish path ver = publish_within max_rounds path ver

  unfoldable pub release_within : ℕ → Bytes → ℕ → ℕ → Exec (World E) ℤ
  unfolding current_row publish_within
  release_within rounds path flags now = do
    current_row E path
    if access_mode flags == 0 then pure (pos 0) else publish_within rounds path (to_int now)

  -- The handler, with as many rounds as the loop can take.
  abbrev pub ndnfs_release : Bytes → ℕ → ℕ → Exec (World E) ℤ
  ndnfs_release path flags now = release_within max_rounds path flags now
