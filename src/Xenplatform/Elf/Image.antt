-- ===== src/Xenplatform/Elf/Image.antt =====
-- crates/xen/xenplatform/src/elfloader.rs: `ElfImageLoader::load`, which finds the image in a kernel file that may be
-- compressed. The search for a magic number and the decoders are parameters: the positions, and what each read gives.
use krata.Prelude.{
  ℕ, Bool, true, false, not, ◌&&◌, if◌then◌else◌, List, [], ◌∷◌, ◌++◌, length, take, drop, leb,
  Outcome, ok, err, panic,
}
use krata.Xenplatform.Sys.{Error}

abbrev pub elf_magic : List ℕ
elf_magic = 0x7f ∷ 0x45 ∷ 0x4c ∷ 0x46 ∷ 2 ∷ 1 ∷ 1 ∷ 0 ∷ 0 ∷ 0 ∷ 0 ∷ 0 ∷ 0 ∷ 0 ∷ 0 ∷ []

abbrev pub gzip_magic : List ℕ
gzip_magic = 0x1f ∷ 0x8b ∷ []

abbrev pub xz_magic : List ℕ
xz_magic = 0xfd ∷ 0x37 ∷ 0x7a ∷ 0x58 ∷ []

abbrev pub is_empty : List ℕ → Bool
is_empty [] = true
is_empty (b ∷ bs) = false

-- An error after the first bytes ends the stream as its end does.
abbrev pub after_error : Bool → Error → List ℕ → Outcome Error (List ℕ)
after_error true e result = err e
after_error false e result = ok result

-- The reads of a decoder in turn, until one gives nothing or an error.
unfoldable pub read_one_stream : List (Outcome Error (List ℕ)) → List ℕ → Outcome Error (List ℕ)
read_one_stream [] result = ok result
read_one_stream (ok [] ∷ reads) result = ok result
read_one_stream (ok (b ∷ bs) ∷ reads) result = read_one_stream reads (result ++ b ∷ bs)
read_one_stream (err e ∷ reads) result = after_error (is_empty result) e result
read_one_stream (panic ∷ reads) result = panic

module _ (find_iter : List ℕ → List ℕ → List ℕ)
    (gz_decoder xz_decoder : List ℕ → List (Outcome Error (List ℕ))) where
  -- What comes of the positions, the first that can be read to be taken; `rest` if there is none.
  unfoldable pub first_stream :
      (List ℕ → List (Outcome Error (List ℕ)))
      → List ℕ
      → List ℕ
      → Outcome Error (List ℕ)
      → Outcome Error (List ℕ)
  unfolding read_one_stream
  first_stream decoder kernel [] rest = rest
  first_stream decoder kernel (start ∷ starts) rest =
      let others = first_stream decoder kernel starts rest in
      elim (read_one_stream (decoder (drop start kernel)) []) [
        | ok image ↦ ok image
        | err e ↦ others
        | panic ↦ panic
      ]

  unfoldable pub load : List ℕ → Outcome Error (List ℕ)
  unfolding first_stream
  load kernel =
      if leb 16 (length kernel) && not (is_empty (find_iter (take 15 kernel) elf_magic))
      then ok kernel
      else first_stream gz_decoder kernel (find_iter kernel gzip_magic) (
          first_stream xz_decoder kernel (find_iter kernel xz_magic)
            (err Error.elf_compression_unknown))
