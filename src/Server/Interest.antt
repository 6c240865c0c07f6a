-- ===== src/Server/Interest.antt =====
-- server/servermodule.cc: onInterestCallback.
pub mod Segments
pub mod Information
pub mod Marked
use ndnfs_port.Prelude.{ℤ, pos, negsuc, Bytes, none, some, [], eqb_ℤ, if◌then◌else◌}
use ndnfs_port.Exec.{Exec, pure, gets, call, run, ◌>>=◌, ◌>>◌}
use ndnfs_port.External.{Env}
use ndnfs_port.External.Types.{Name}
use ndnfs_port.World.{World}
use ndnfs_port.Server.Name.{Parsed, result, crash, out_of_range, parse_name}
use ndnfs_port.Server.Content.{send_file_content}
use ndnfs_port.Server.Meta.{send_file_meta}
use ndnfs_port.Server.Directory.{send_dir_page}

-- How the callback ends: it returns, an exception leaves it, or it reads through a null pointer.
pub data Reaction : Type 0 where
  handled threw crashed : Reaction

module _ (E : Env) where
  -- The MIME type is read from column 3 of three, and taken from column 1 if that is not NULL.
  pub mime_column : Bytes → Bytes
  mime_column mime_type = elim E.column_beyond [ none ↦ [] | some _ ↦ mime_type ]

  -- The client asks for a version without a segment.
  unfoldable pub answer_version : Name → Bytes → ℤ → Exec (World E) ℤ
  answer_version name path version = do
    row ← gets (λ w. E.files.select w.files path)
    elim row [
      | none ↦ pure (pos 0)
      | some _ ↦ do call (send_file_content E name path version (negsuc 0)); pure (pos 0)
    ]

  -- The client asks about a file or a directory.
  unfoldable pub answer_meta : Bytes → Exec (World E) ℤ
  unfolding mime_column
  answer_meta path = do
    row ← gets (λ w. E.files.select w.files path)
    elim row [
      | none ↦ do call (send_dir_page E path); pure (pos 0)
      | some r ↦ do
        call (send_file_meta E path (mime_column r.mime_type) r.current_version r.file_type)
        pure (pos 0)
    ]

  -- By the result code of parseName.
  unfoldable pub answer : Name → ℤ → ℤ → ℤ → Bytes → Exec (World E) ℤ
  unfolding answer_version answer_meta
  answer name ret version seg path =
      if eqb_ℤ ret (pos 3)
      then (do call (send_file_content E name path version seg); pure (pos 0))
      else if eqb_ℤ ret (pos 2)
      then answer_version name path version
      else if eqb_ℤ ret (pos 1)
      then answer_meta path
      else pure (pos 0)

  -- By what parseName gave.
  unfoldable pub react : Name → World E → Parsed → Reaction × World E
  unfolding answer
  react name w (result ret version seg path) =
      (handled, (run (answer name ret version seg path) w).1)
  react name w crash = (crashed, w)
  react name w out_of_range = (threw, w)

  unfoldable pub on_interest : Name → World E → Reaction × World E
  unfolding react
  on_interest name w = react name w (parse_name E name)
