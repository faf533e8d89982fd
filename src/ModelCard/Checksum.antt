-- ===== src/ModelCard/Checksum.antt =====
-- `_sha256`: the digest of a file, read in chunks.
use document_classifier_week.Prelude.{
  ℕ, zero, suc, Option, none, some, [], ◌∷◌, length, take, drop, String,
}
use document_classifier_week.Models.{Bytes}

-- `hashlib.sha256()`, `h.update(data)`, `h.hexdigest()`
pub record Hash (S : Type 0) : Type 0 where
  pub new : S
  pub update : S → Bytes → S
  pub hexdigest : S → String

-- `f.read(1024 * 1024)` reads this many bytes at most
abbrev pub chunk_size : ℕ
chunk_size = 1048576

module _ {S : Type 0} (hash : Hash S) where
  -- one round of the loop, with what `next` does after it: the empty chunk ends it
  abbrev round : Bytes → S → (S → Option S) → Option S
  round [] h next = some h
  round (b ∷ chunk) h next = next (hash.update h (b ∷ chunk))

  -- `while chunk := f.read(size): h.update(chunk)`, for at most `fuel` reads
  unfoldable pub update_chunks : ℕ → ℕ → S → Bytes → Option S
  update_chunks size zero h content = none
  update_chunks size (suc fuel) h content =
      round (take size content) h (λ h'. update_chunks size fuel h' (drop size content))

  -- Each read but the last takes a byte at least.
  unfoldable pub sha256_of_file : Bytes → Option String
  sha256_of_file content = elim (update_chunks chunk_size (suc (length content)) hash.new content) [
    | none ↦ none
    | some h ↦ some (hash.hexdigest h)
  ]
