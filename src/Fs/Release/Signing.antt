-- ===== src/Fs/Release/Signing.antt =====
-- fs/file.cc, ndnfs_release: which segments the loop signs.
pub mod Rows
pub mod Partway
use ndnfs_port.Prelude.{
  ℕ, true, false, min, ==_iff, ◌≢◌, inl, inr, Bool-cases, length-take, length-drop, zero, suc, ◌+◌,
  ◌-◌, ◌*◌, ◌/◌, ◌≤◌, ◌<◌, ℤ, pos, Bytes, ◌≡◌, refl, sym, ap, ◌∙◌, some, length, take, drop, to_int,
  to_int-of_lt, arith, ◌==◌, if◌then◌else◌,
}
use ndnfs_port.Exec.{next}
use ndnfs_port.External.{Env}
use ndnfs_port.External.Posix.{View, Reads}
use ndnfs_port.World.{World}
use ndnfs_port.Fs.Config.{seg_size}
use ndnfs_port.Fs.Segment.{unsigned}
use ndnfs_port.Fs.Segment.Offsets.{segment_to_size-of_lt}
use ndnfs_port.Fs.Segment.Names.{segment_id, sign_segment-eq}
use ndnfs_port.Fs.Release.{sign_loop}

-- The part of a file that segment `i` holds.
abbrev pub chunk : Bytes → ℕ → Bytes
chunk b i = take seg_size (drop (i * 8192) b)

pub length-chunk : (b : Bytes) (i : ℕ) → length (chunk b i) ≡ min seg_size (length b - i * 8192)
length-chunk b i =
    length-take seg_size (drop (i * 8192) b) ∙ ap (min seg_size) (length-drop (i * 8192) b)

full_length : (n i : ℕ) → (min 8192 (n - i * 8192) == 8192) ≡ true → suc i * 8192 ≤ n
full_length n i h = let e : min 8192 (n - i * 8192) ≡ 8192 = (==_iff _ _).0 h in omega arith

short_length : (n i : ℕ) → (min 8192 (n - i * 8192) == 8192) ≡ false → i * 8192 ≤ n → n / 8192 ≡ i
short_length n i h le =
    let e : min 8192 (n - i * 8192) ≢ 8192 = λ e. cc ((==_iff _ _).1 e) in omega arith

module _ (E : Env) where
  -- The signature of segment `i` of the content `b`.
  abbrev pub signature_of : Bytes → ℤ → Bytes → ℕ → Bytes
  signature_of path ver b i = E.ndn.sign (unsigned (segment_id E path ver (pos i)) (chunk b i))

  -- `n` segments signed, from segment `i` on.
  pub sign_rows : Bytes → ℤ → Bytes → ℕ → ℕ → E.segments.Rows → E.segments.Rows
  sign_rows path ver b i zero rows = rows
  sign_rows path ver b i (suc n) rows =
      sign_rows path ver b (suc i) n
        (E.segments.replace rows (path, ver, pos i) (signature_of path ver b i))

  abbrev pub sign_one : Bytes → ℤ → Bytes → ℕ → World E → World E
  sign_one path ver b i w = record w {
    segments = E.segments.replace w.segments (path, ver, pos i) (signature_of path ver b i);
  }

module _ (E : Env) (V : View E.posix) (R : Reads E.posix V) where
  pub sign_loop-step :
      (fuel fd : ℕ) (path : Bytes) (ver : ℤ) (b : Bytes) (i : ℕ) (w : World E)
      → i < 262144
      → V.fd_content w.os fd ≡ some b
      → sign_loop E (suc fuel) fd path ver i w ≡ (
          if length (chunk b i) == seg_size
          then sign_loop E fuel fd path ver (suc i) (sign_one E path ver b i w)
          else (next tt, sign_one E path ver b i w))
  unfolding sign_loop
  sign_loop-step fuel fd path ver b i w h opened = ground (
    arith,
    segment_to_size-of_lt i h,
    R.pread-content w.os fd seg_size (i * 8192) opened,
    to_int-of_lt i (omega arith),
    sign_segment-eq E path ver (pos i) (chunk b i) w,
  )

  -- The loop signs every segment from `i` to the one that holds the end of the file.
  pub sign_loop-content :
      (fuel fd : ℕ) (path : Bytes) (ver : ℤ) (b : Bytes) (i : ℕ) (w : World E)
      → length b < 2147483648
      → i * 8192 ≤ length b
      → length b / 8192 < i + fuel
      → V.fd_content w.os fd ≡ some b
      → sign_loop E fuel fd path ver i w ≡ (
        next tt,
        record w { segments = sign_rows E path ver b i (length b / 8192 + 1 - i) w.segments },
      )
  unfolding sign_rows
  sign_loop-content zero fd path ver b i w small le enough opened = absurd (omega arith)
  sign_loop-content (suc fuel) fd path ver b i w small le enough opened =
      sign_loop-step fuel fd path ver b i w (omega arith) opened
      ∙ elim (Bool-cases (length (chunk b i) == seg_size)) [
        | inl full ↦
            let more : suc i * 8192 ≤ length b =
              full_length (length b) i (rw length-chunk at full) in
            let count : length b / 8192 + 1 - i ≡ suc (length b / 8192 + 1 - suc i) = omega arith in
            rw (full, count)
              (sign_loop-content fuel fd path ver b (suc i) (sign_one E path ver b i w) small more
                (omega arith) opened)
        | inr short ↦
            let last : length b / 8192 ≡ i =
              short_length (length b) i (rw length-chunk at short) le in
            let count : length b / 8192 + 1 - i ≡ 1 = omega arith in rw (short, count)
      ]
