-- ===== src/Xenclient/Tx/PciRoot/Granted.antt =====
-- crates/xen/xenclient/src/tx/pci.rs: the frames that a domain is granted for a memory resource.
use krata.Prelude.{ℕ, ◌*◌, ◌%◌, ◌<◌, ◌≡◌, arith}
use krata.Xenclient.Tx.PciRoot.{frames_of_size}

-- Of a resource whose size is a number of whole frames, all frames are granted.
pub frames_of_size_whole :
    (frames : ℕ) → frames < 4503599627370496 → frames_of_size (frames * 4096) ≡ frames
unfolding frames_of_size
frames_of_size_whole frames h = omega arith

-- Of a resource of fewer than 2^63 bytes, whose bytes behind the last whole frame are at least one and fewer than 4085,
-- the frames that are granted are smaller than the resource.
pub frames_of_size_short :
    (size : ℕ)
    → size < 9223372036854775808
    → 0 < size % 4096
    → size % 4096 < 4085
    → frames_of_size size * 4096 < size
unfolding frames_of_size
frames_of_size_short size small h k = omega arith
