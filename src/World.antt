-- ===== src/World.antt =====
-- The state behind a process of ndnfs: the three tables of the database (fs/ndnfs.cc), the operating
-- system, what a handler wrote to its caller's output argument, and the packets put on the face.
use mathlib.Core.List.{append_assoc}
use ndnfs_port.Prelude.{Bytes, ◌≡◌, refl, sym, List, [], ◌∷◌, ◌++◌}
use ndnfs_port.Exec.{Exec, Sys, next, or_errno}
use ndnfs_port.External.{Env}
use ndnfs_port.External.Types.{Stat, Dirent, Packet}

-- The output argument of a FUSE handler: `buf`, `stbuf`, `si`, or the entries given to `filler`.
pub data Out : Type 0 where
  untouched : Out
  buffer : Bytes → Out
  attributes : Stat → Out
  statistics : Bytes → Out
  entries : List Dirent → Out

-- A packet with the value of its signature.
pub record Sent : Type 0 where
  pub packet : Packet
  pub signature : Bytes

-- The contents of packets, one behind the other.
abbrev pub contents : List Sent → Bytes
contents [] = []
contents (s ∷ rest) = s.packet.content ++ contents rest

pub contents_append : (xs ys : List Sent) → contents (xs ++ ys) ≡ contents xs ++ contents ys
contents_append [] ys = refl
contents_append (x ∷ xs) ys =
    rw (contents_append xs ys) (sym (append_assoc x.packet.content (contents xs) (contents ys)))

pub record World (E : Env) : Type 0 where
  pub files : E.files.Rows
  pub versions : E.versions.Rows
  pub segments : E.segments.Rows
  pub os : E.posix.Os
  pub out : Out
  pub sent : List Sent

module _ (E : Env) where
  -- A system call whose failure ends the function by `return -errno`.
  abbrev pub sys : {A : Type 0} → (E.posix.Os → Sys A × E.posix.Os) → Exec (World E) A
  sys f w = let (r, o) = f w.os in or_errno r (record w { os = o })

  -- A system call whose outcome the code looks at itself, or drops.
  abbrev pub try : {A : Type 0} → (E.posix.Os → Sys A × E.posix.Os) → Exec (World E) (Sys A)
  try f w = let (r, o) = f w.os in (next r, record w { os = o })

  -- The same for the calls that only read.
  abbrev pub sys_read : {A : Type 0} → (E.posix.Os → Sys A) → Exec (World E) A
  sys_read f w = or_errno (f w.os) w

  abbrev pub try_read : {A : Type 0} → (E.posix.Os → Sys A) → Exec (World E) (Sys A)
  try_read f w = (next (f w.os), w)

  abbrev pub set_files : (E.files.Rows → E.files.Rows) → Exec (World E) (Unit {0})
  set_files f w = (next tt, record w { files = f w.files })

  abbrev pub set_versions : (E.versions.Rows → E.versions.Rows) → Exec (World E) (Unit {0})
  set_versions f w = (next tt, record w { versions = f w.versions })

  abbrev pub set_segments : (E.segments.Rows → E.segments.Rows) → Exec (World E) (Unit {0})
  set_segments f w = (next tt, record w { segments = f w.segments })

  abbrev pub give : Out → Exec (World E) (Unit {0})
  give x w = (next tt, record w { out = x })

  -- face.putData
  abbrev pub put_data : Packet → Bytes → Exec (World E) (Unit {0})
  put_data p s w =
      (next tt, record w { sent = w.sent ++ (record { packet = p; signature = s } ∷ []) })
