-- ===== src/Fs/Startup/Arguments.antt =====
-- fs/ndnfs.cc, main: which argument is the folder, and what goes to FUSE.
use ndnfs_port.Prelude.{
  pos, neg, Bytes, true, false, none, some, ◌≡◌, refl, ap, List, [], ◌∷◌, ◌++◌, ◌==◌, length, All,
  if◌then◌else◌,
}
use ndnfs_port.Fs.FileType.{format, s_ifdir}
use ndnfs_port.Fs.Startup.{
  Host, Start, exits, is_option, skip_options, argument, shift, without_slash, mount, main,
}

abbrev pub IsOption : Bytes → Type 0
IsOption arg = is_option arg ≡ true

skip_options-append :
    (options : List Bytes) (folder : Bytes) (rest : List Bytes)
    → All IsOption options
    → is_option folder ≡ false
    → skip_options (options ++ (folder ∷ rest)) ≡ length options
unfolding skip_options
skip_options-append [] folder rest h other = rw other refl
skip_options-append (o ∷ options) folder rest (dash, h) other =
    rw dash (rw (skip_options-append options folder rest h other) refl)

skip_options-of_options :
    (options : List Bytes) → All IsOption options → skip_options options ≡ length options
unfolding skip_options
skip_options-of_options [] h = refl
skip_options-of_options (o ∷ options) (dash, h) =
    rw dash (rw (skip_options-of_options options h) refl)

argument-length :
    (front : List Bytes) (a : Bytes) (rest : List Bytes)
    → argument (front ++ (a ∷ rest)) (length front) ≡ some a
unfolding argument
argument-length [] a rest = refl
argument-length (x ∷ front) a rest = argument-length front a rest

argument-end : (front : List Bytes) → argument front (length front) ≡ none
unfolding argument
argument-end [] = refl
argument-end (x ∷ front) = argument-end front

shift-length :
    (front : List Bytes) (a : Bytes) (rest : List Bytes)
    → shift (front ++ (a ∷ rest)) (length front) ≡ front ++ rest
unfolding shift
shift-length [] a rest = refl
shift-length (x ∷ front) a rest = rw (shift-length front a rest) refl

module _ (H : Host) where
  -- What becomes of a folder, and of the arguments without it.
  abbrev pub checked : Bytes → List Bytes → Start
  checked folder args = elim (H.stat_mode folder) [
    | none ↦ exits (pos 0)
    | some mode ↦
        if format mode == s_ifdir
        then mount H (without_slash (H.realpath folder)) args
        else exits (pos 0)
  ]

  -- The first argument that does not start with '-' is the folder, and FUSE gets all the others in their
  -- order; without such an argument the program ends with -1. A folder that does not exist, or is no
  -- folder, ends it with 0.
  pub main-folder :
      (program : Bytes) (options : List Bytes)
      → All IsOption options
      → ((folder : Bytes) (rest : List Bytes)
          → is_option folder ≡ false
          → main H program (options ++ (folder ∷ rest))
            ≡ checked folder (program ∷ (options ++ rest)))
        × (main H program options ≡ exits (neg 1))
  unfolding main
  main-folder program options h = (
    λ folder rest other.
        let skipped = skip_options-append options folder rest h other in
        let args : shift (options ++ (folder ∷ rest)) (skip_options (options ++ (folder ∷ rest)))
            ≡ options ++ rest =
          rw skipped (shift-length options folder rest) in
        rw (main, skipped, argument-length options folder rest)
          (ap (λ args. checked folder (program ∷ args)) args),
    rw (main, skip_options-of_options options h, argument-end options) refl,
  )
