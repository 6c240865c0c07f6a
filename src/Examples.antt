-- ===== src/Examples.antt =====
-- One file in the environment of External/Memory.antt, for the examples.
mod Fs
mod Server
mod Programs
mod Both
use mathlib.Core.List.{Perm}
use mathlib.Core.List.Perm
use ndnfs_port.Prelude.{
  ℕ, suc, ◌+◌, ◌/◌, ◌*◌, ◌≤◌, ◌<◌, pos, negsuc, neg, Bytes, ap, ◌≡◌, ◌≢◌, refl, Option, none, some,
  List, [], ◌∷◌, ◌++◌, length, codes, eqb, eqb_ℤ, to_int, ◌&&◌, if◌then◌else◌, arith, ltb, ◌-◌,
  ◌==◌,
}
use ndnfs_port.Exec.{ok, err, run, returned}
use ndnfs_port.External.Types.{FileRow, VersionRow}
use ndnfs_port.External.Memory.{memory, memory_documented, Disk}
use ndnfs_port.External.Table.{path_key, version_key, segment_key}
use ndnfs_port.World.{World, untouched, buffer, contents}
use ndnfs_port.Fs.Config.{abs_path, enoent}
use ndnfs_port.Fs.Requests.{Request, mknod, rename, serve}
use ndnfs_port.Server.Config.{server_path}
use ndnfs_port.Delivery
use ndnfs_port.Fs.Release.{ndnfs_release}
use ndnfs_port.Fs.Release.Publishing
use ndnfs_port.Fs.Release.Signing.{signature_of}
use ndnfs_port.Fs.Release.Overflow
use ndnfs_port.Fs.Requests.Listed
use ndnfs_port.Fs.Requests.Rows
use ndnfs_port.Fs.Segment.{seek_segment, segment_to_size, unescape_slashes, find_escaped_slash}
use ndnfs_port.Fs.Segment.Escape
use ndnfs_port.Fs.Segment.Offsets
use ndnfs_port.Fs.File.{new_row, ndnfs_mknod, ndnfs_unlink, ndnfs_read, ndnfs_write, ndnfs_truncate}
use ndnfs_port.Fs.File.Outcomes
use ndnfs_port.Fs.File.Creation
use ndnfs_port.Fs.File.Removal
use ndnfs_port.Fs.Link.{ndnfs_rename}
use ndnfs_port.Fs.Link.Renaming
use ndnfs_port.Fs.Release.Descriptors
use ndnfs_port.Server.Name.Refusals
use ndnfs_port.Server.Interest.Information
use ndnfs_port.Mime.{mime_infer, infer_in}
use ndnfs_port.Mime.Lookup
use ndnfs_port.Mime.Table.{inserted_pairs}
use ndnfs_port.Server.Name.{parse_name, result}
use ndnfs_port.Server.Name.Forms
use ndnfs_port.Server.Content.{sizes}
use ndnfs_port.Server.Content.Serving
use ndnfs_port.Server.Interest.{handled, on_interest}
use ndnfs_port.Server.Interest.Segments
use ndnfs_port.Server.Replies
use ndnfs_port.Server.Html.{sort, directory_page}
use ndnfs_port.Server.Html.Order
use ndnfs_port.Server.Html.Listing

-- "/a" and "/b"
abbrev pub a_path : Bytes
a_path = b'/' ∷ b'a' ∷ []

abbrev pub b_path : Bytes
b_path = b'/' ∷ b'b' ∷ []

abbrev pub a_content : Bytes
a_content = b'h' ∷ b'i' ∷ []

-- The components of /p/a
abbrev pub a_components : List Bytes
a_components = (b'p' ∷ []) ∷ (b'a' ∷ []) ∷ []

abbrev pub a_row : FileRow
a_row = record { current_version = pos 5; mime_type = []; ready_signed = pos 1; file_type = pos 7 }

abbrev pub version_row : VersionRow
version_row = record { size = none }

-- One file at /d/a.
abbrev pub disk_of : Bytes → Disk
disk_of b = record {
  contents = λ p. if eqb p (b'/' ∷ b'd' ∷ a_path) then some b else none;
  fd_path = λ _. [];
  fresh = 3;
  count = 0;
}

-- It has a row; with the signatures given.
abbrev pub world_of : Bytes → Option Bytes → World memory
world_of b signature = record {
  files = λ p. if eqb p a_path then some a_row else none;
  versions = λ (p, v). if eqb p a_path && eqb_ℤ v (pos 5) then some version_row else none;
  segments = λ _. signature;
  os = disk_of b;
  out = untouched;
  sent = [];
}

abbrev pub a_world : World memory
a_world = world_of a_content none

-- No rows.
abbrev pub bare_world : World memory
bare_world = record (world_of a_content none) { files = λ _. none; versions = λ _. none }

abbrev pub after_release : World memory → World memory
after_release w = (run (ndnfs_release memory a_path 1 7) w).1

pub a_row_found : (b : Bytes) → memory.files.select (world_of b none).files a_path ≡ some a_row
unfolding eqb
a_row_found b = refl

pub a_content_found :
    (b : Bytes) → memory_documented.view.content (disk_of b) (abs_path memory a_path) ≡ some b
unfolding eqb abs_path
a_content_found b = refl

pub same_directory : server_path memory a_path ≡ abs_path memory a_path
unfolding server_path abs_path
same_directory = refl

pub writes : ◌≢◌ {A = ℕ} 1 0
writes e = omega arith

pub p-IsPlain : Forms.IsPlain (b'p' ∷ [])
p-IsPlain = (λ e. omega arith, λ e. omega arith, λ e. omega arith)

pub a-IsPlain : Forms.IsPlain (b'a' ∷ [])
a-IsPlain = (λ e. omega arith, λ e. omega arith, λ e. omega arith)

pub a_components-ArePlain : Forms.ArePlain a_components
a_components-ArePlain = (p-IsPlain, (a-IsPlain, tt))

pub a_components-joined : Forms.joined memory a_components ≡ memory.fs_prefix ++ a_path
unfolding Forms.joined
a_components-joined = refl

pub a_path-ne-nil : a_path ≢ []
a_path-ne-nil e = cc

pub same_directory_content :
    (b : Bytes) → memory_documented.view.content (disk_of b) (server_path memory a_path) ≡ some b
unfolding eqb server_path
same_directory_content b = refl

abbrev pub letter : Bytes → ℕ
letter [] = 0
letter (_ ∷ []) = 0
letter (_ ∷ c ∷ _) = c

pub a_version_listed : memory.versions.select a_world.versions (a_path, pos 5) ≢ none
unfolding eqb
a_version_listed e = cc

pub a_version_row : memory.versions.select a_world.versions (a_path, pos 5) ≡ some version_row
unfolding eqb
a_version_row = refl

pub small : length a_content < 2147483648
small = omega arith

-- A world in which each segment has a signature.
abbrev pub signed_world : World memory
signed_world = world_of a_content (some (b's' ∷ []))

abbrev pub interest : ℕ → ℕ → List Bytes
interest v k = Segments.segment_interest memory a_components v k

abbrev pub requests : List Request
requests = rename a_path b_path ∷ mknod b_path 33188 0 9 ∷ []

pub bare_world-IsListed : Rows.IsListed memory bare_world.files bare_world.versions
unfolding Rows.IsListed
bare_world-IsListed p row found gone = cc

pub has_row : memory.files.select a_world.files a_path ≢ none
unfolding eqb
has_row e = cc

abbrev pub opened_disk : Disk
opened_disk = record (disk_of a_content) {
  fd_path = λ fd. if fd == 3 then b'/' ∷ b'd' ∷ a_path else [];
  fresh = 4;
  count = 1;
}

pub a_opens :
    memory.posix.open_file (disk_of a_content) (abs_path memory a_path) 2 0 ≡ (ok 3, opened_disk)
unfolding eqb abs_path
a_opens = refl
