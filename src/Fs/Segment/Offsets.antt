-- ===== src/Fs/Segment/Offsets.antt =====
-- fs/segment.h: offsets of segments in C's `int`.
use ndnfs_port.Prelude.{ℕ, ◌+◌, ◌-◌, ◌*◌, ◌≤◌, ◌<◌, pos, negsuc, ◌≡◌, arith, to_int}
use ndnfs_port.Fs.Segment.{seek_segment, segment_to_size}

-- Below 2 GiB the offset of a segment is what it should be.
pub segment_to_size-of_lt : (i : ℕ) → i < 262144 → segment_to_size (to_int i) ≡ pos (i * 8192)
unfolding segment_to_size to_int
segment_to_size-of_lt i h = ground arith

-- From 2 GiB on it is negative.
pub segment_to_size_overflow :
    (i : ℕ) → 262144 ≤ i → i < 524288 → segment_to_size (to_int i) ≡ negsuc (4294967295 - i * 8192)
unfolding segment_to_size to_int
segment_to_size_overflow i h k = ground arith

-- The offset `segment_to_size` gives for a segment lies in the segment that `seek_segment` names, and so does
-- every byte up to the next one, for all offsets that an `int` holds.
pub seek_segment-segment_to_size :
    (i j : ℕ)
    → i < 262144
    → j < 8192
    → (segment_to_size (to_int i) ≡ pos (i * 8192)) × (seek_segment (pos (i * 8192 + j)) ≡ pos i)
unfolding seek_segment
seek_segment-segment_to_size i j h k = (segment_to_size-of_lt i h, ground arith)
