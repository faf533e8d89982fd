-- ===== src/ModelCard/Digest.antt =====
-- The loop over the chunks of a file.
use document_classifier_week.Prelude.{
  ℕ, zero, suc, ◌≤◌, ◌<◌, ◌≡◌, refl, sym, ap, ◌∙◌, arith, some, [], ◌∷◌, ◌++◌, length, take, drop,
  length-drop_le, take-drop,
}
use document_classifier_week.Models.{Bytes}
use document_classifier_week.ModelCard.Checksum.{Hash, update_chunks, chunk_size, sha256_of_file}

-- The documented behaviour of hashlib: "repeated calls are equivalent to a single call with the
-- concatenation of all the arguments".
pub record IsIncremental {S : Type 0} (hash : Hash S) : Type 0 where
  pub update-nil : (h : S) → hash.update h [] ≡ h
  pub update-append :
      (h : S) (a b : Bytes) → hash.update (hash.update h a) b ≡ hash.update h (a ++ b)

module _ {S : Type 0} (hash : Hash S) (law : IsIncremental hash) where
  update_chunks-suc :
      (size fuel : ℕ) (h : S) (content : Bytes)
      → length content < fuel
      → update_chunks hash (suc size) fuel h content ≡ some (hash.update h content)
  unfolding update_chunks
  update_chunks-suc size zero h content enough = grind arith
  update_chunks-suc size (suc fuel) h [] enough = ap some (sym (law.update-nil h))
  update_chunks-suc size (suc fuel) h (b ∷ bs) enough =
      let shorter = length-drop_le size bs in
      update_chunks-suc size fuel (hash.update h (b ∷ take size bs)) (drop size bs) (omega arith)
      ∙ ap some (
          law.update-append h (b ∷ take size bs) (drop size bs)
          ∙ ap (λ xs. hash.update h (b ∷ xs)) (take-drop size bs))

  -- Whatever the size of a chunk, one byte or more, a number of reads greater than the length of the file
  -- is enough for the loop to end, and it ends with the digest state of the whole content.
  pub update_chunks-enough :
      (size fuel : ℕ) (h : S) (content : Bytes)
      → 1 ≤ size
      → length content < fuel
      → update_chunks hash size fuel h content ≡ some (hash.update h content)
  update_chunks-enough zero fuel h content positive enough = grind arith
  update_chunks-enough (suc size) fuel h content positive enough =
      update_chunks-suc size fuel h content enough

  -- `_sha256` always ends, with the digest of the file's whole content in one update.
  pub sha256_of_file-whole :
      (content : Bytes)
      → sha256_of_file hash content ≡ some (hash.hexdigest (hash.update hash.new content))
  unfolding sha256_of_file update_chunks
  sha256_of_file-whole content =
      rw
        (update_chunks-enough chunk_size (suc (length content)) hash.new content (omega arith)
          (omega arith))
        refl
