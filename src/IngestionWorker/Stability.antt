-- ===== src/IngestionWorker/Stability.antt =====
-- When `_detect_stable_files` calls a file stable, and what the tracking keeps of a listing.
use document_classifier_week.Prelude.{
  ◌≡◌, ◌≢◌, refl, sym, ◌∙◌, ap, String, Bool, true, false, ◌||◌, Option, none, some, List, [], ◌∷◌,
  map, ◌==◌, nat_eq, string_eq, select, contains, if◌then◌else◌, inl, inr, Bool-cases, arith,
}
use document_classifier_week.Sftp.{SftpFileInfo}
use document_classifier_week.IngestionWorker.Tracking.{
  SeenFile, Seen, lookup, insert, seen_of, is_unchanged, observe, scan, purge, detect,
}

abbrev pub names : List SftpFileInfo → List String
names files = map (λ f. f.filename) files

-- A listing names each file once.
abbrev pub IsDistinct : List SftpFileInfo → Type 0
IsDistinct [] = Unit
IsDistinct (f ∷ files) = (contains f.filename (names files) ≡ false) × IsDistinct files

-- the entry of a listing for a name, as the tracking would keep it
abbrev pub entry_of : String → List SftpFileInfo → Option SeenFile
entry_of k [] = none
entry_of k (f ∷ files) = if f.filename == k then some (seen_of f) else entry_of k files

beq_refl : (k : String) → (k == k) ≡ true
beq_refl k = (string_eq.test_iff k k).1 refl

beq-sym : (j k : String) → (j == k) ≡ false → (k == j) ≡ false
beq-sym j k h = elim (Bool-cases (k == j)) [
  | inl e ↦
      absurd
        (true≢false (sym ((string_eq.test_iff j k).1 (sym ((string_eq.test_iff k j).0 e))) ∙ h))
  | inr e ↦ e
]
  where
    true≢false : true ≢ false
    true≢false e = grind arith

lookup-insert : (k : String) (v : SeenFile) (seen : Seen) → lookup k (insert k v seen) ≡ some v
unfolding lookup insert
lookup-insert k v [] = rw (beq_refl k) refl
lookup-insert k v ((j, w) ∷ seen) = elim (Bool-cases (j == k)) [
  | inl e ↦ rw (e, beq_refl k) refl
  | inr e ↦ rw (e, if◌then◌else◌, lookup, e, lookup-insert k v seen)
]

lookup-insert_other :
    (j k : String) (v : SeenFile) (seen : Seen)
    → (k == j) ≡ false
    → lookup j (insert k v seen) ≡ lookup j seen
unfolding lookup insert
lookup-insert_other j k v [] h = rw (h) refl
lookup-insert_other j k v ((i, w) ∷ seen) h = elim (Bool-cases (i == k)) [
  | inl e ↦ let same = (string_eq.test_iff i k).0 e in rw (same, beq_refl k, h) refl
  | inr e ↦ rw (e, lookup-insert_other j k v seen h) refl
]

-- What a listing says of the name wins over the tracking.
abbrev or_else : Option SeenFile → Option SeenFile → Option SeenFile
or_else none v = v
or_else (some u) v = some u

unchanged-seen :
    (f : SftpFileInfo) (v : Option SeenFile) → is_unchanged f v ≡ true → v ≡ some (seen_of f)
unchanged-seen f none h = grind arith
unchanged-seen f (some prev) h = grind arith

lookup-observe :
    (f : SftpFileInfo) (seen : Seen) → lookup f.filename (observe f seen) ≡ some (seen_of f)
unfolding observe
lookup-observe f seen = elim (Bool-cases (is_unchanged f (lookup f.filename seen))) [
  | inl e ↦ rw (e, if◌then◌else◌) (unchanged-seen f (lookup f.filename seen) e)
  | inr e ↦ rw (e, if◌then◌else◌) (lookup-insert f.filename (seen_of f) seen)
]

lookup-observe_other :
    (k : String) (f : SftpFileInfo) (seen : Seen)
    → (f.filename == k) ≡ false
    → lookup k (observe f seen) ≡ lookup k seen
unfolding observe
lookup-observe_other k f seen h = elim (Bool-cases (is_unchanged f (lookup f.filename seen))) [
  | inl e ↦ rw (e, if◌then◌else◌) refl
  | inr e ↦ rw (e, if◌then◌else◌) (lookup-insert_other k f.filename (seen_of f) seen h)
]

select-ext :
    {A : Type 0} (p q : A → Bool) (xs : List A) → ((x : A) → p x ≡ q x) → select p xs ≡ select q xs
select-ext p q [] h = refl
select-ext p q (x ∷ xs) h = rw (h x, select-ext p q xs h)

false-or_left : (a b : Bool) → (a || b) ≡ false → a ≡ false
false-or_left a b h = ground arith

false-or_right : (a b : Bool) → (a || b) ≡ false → b ≡ false
false-or_right a b h = ground arith

entry-none :
    (k : String) (files : List SftpFileInfo)
    → contains k (names files) ≡ false
    → entry_of k files ≡ none
entry-none k [] h = refl
entry-none k (f ∷ files) h = rw (
  beq-sym k f.filename (false-or_left (k == f.filename) (contains k (names files)) h),
  if◌then◌else◌,
  entry-none k files (false-or_right (k == f.filename) (contains k (names files)) h),
)

scan-lookup :
    (k : String) (files : List SftpFileInfo) (seen : Seen)
    → IsDistinct files
    → lookup k (scan files seen).1 ≡ or_else (entry_of k files) (lookup k seen)
unfolding scan
scan-lookup k [] seen d = refl
scan-lookup k (f ∷ files) seen (fresh, d) = elim (Bool-cases (f.filename == k)) [
  | inl e ↦
      let same = (string_eq.test_iff f.filename k).0 e in
      scan-lookup k files (observe f seen) d
      ∙ rw (sym same, entry-none f.filename files fresh, lookup-observe f seen, beq_refl f.filename)
  | inr e ↦ scan-lookup k files (observe f seen) d ∙ rw (lookup-observe_other k f seen e, e)
]

select-fresh :
    (f : SftpFileInfo) (seen : Seen) (files : List SftpFileInfo)
    → contains f.filename (names files) ≡ false
    → select (λ g. is_unchanged g (lookup g.filename (observe f seen))) files
      ≡ select (λ g. is_unchanged g (lookup g.filename seen)) files
select-fresh f seen [] h = refl
select-fresh f seen (g ∷ files) h = rw (
  lookup-observe_other g.filename f seen
      (false-or_left (f.filename == g.filename) (contains f.filename (names files)) h),
  select-fresh f seen files
      (false-or_right (f.filename == g.filename) (contains f.filename (names files)) h),
)

scan-stable :
    (files : List SftpFileInfo) (seen : Seen)
    → IsDistinct files
    → (scan files seen).0 ≡ select (λ f. is_unchanged f (lookup f.filename seen)) files
unfolding scan
scan-stable [] seen d = refl
scan-stable (f ∷ files) seen (fresh, d) =
    rw (scan-stable files (observe f seen) d, select-fresh f seen files fresh)

purge-lookup :
    (k : String) (files : List SftpFileInfo) (seen : Seen)
    → lookup k (purge files seen) ≡ (if contains k (names files) then lookup k seen else none)
unfolding purge lookup
purge-lookup k files [] = elim (Bool-cases (contains k (names files))) [
  | inl e ↦ rw (e, if◌then◌else◌)
  | inr e ↦ rw (e, if◌then◌else◌)
]
purge-lookup k files ((j, v) ∷ seen) = elim (Bool-cases (j == k)) [
  | inl e ↦ purge_same (purge-lookup k files seen) ((string_eq.test_iff j k).0 e)
  | inr e ↦ purge_other (purge-lookup k files seen) e (contains j (names files))
]
  where
    kept : Seen
    kept = purge files seen

    expected : Option SeenFile
    expected = if contains k (names files) then lookup k ((j, v) ∷ seen) else none

    purge_same :
        lookup k kept ≡ (if contains k (names files) then lookup k seen else none)
        → j ≡ k
        → lookup k (if contains j (names files) then (j, v) ∷ kept else kept) ≡ expected
    purge_same ih same = elim (Bool-cases (contains k (names files))) [
      | inl c ↦
          let c' = ap (λ i. contains i (names files)) same ∙ c in
          rw (c', c, same, if◌then◌else◌, lookup, beq_refl k)
      | inr c ↦
          let c' = ap (λ i. contains i (names files)) same ∙ c in
          rw (c', c, if◌then◌else◌) (ih ∙ rw (c))
    ]

    purge_other :
        lookup k kept ≡ (if contains k (names files) then lookup k seen else none)
        → (j == k) ≡ false
        → (b : Bool) → lookup k (if b then (j, v) ∷ kept else kept) ≡ expected
    purge_other ih e true = rw (e, ih)
    purge_other ih e false = rw (e, ih)

listed-or_else :
    (k : String) (files : List SftpFileInfo) (v : Option SeenFile)
    → contains k (names files) ≡ true
    → or_else (entry_of k files) v ≡ entry_of k files
listed-or_else k [] v h = grind arith
listed-or_else k (f ∷ files) v h = elim (Bool-cases (f.filename == k)) [
  | inl e ↦ rw (e, if◌then◌else◌)
  | inr e ↦ rw (e, if◌then◌else◌) (listed-or_else k files v (sym (rw (beq-sym f.filename k e)) ∙ h))
]

-- After a round, the tracking holds exactly the entries of the listing: whatever it held before,
-- each listed file (a listing names each file once) has the size and the time of this listing, and
-- no other file is tracked.
detect-tracking :
    (k : String) (files : List SftpFileInfo) (seen : Seen)
    → IsDistinct files
    → lookup k (detect files seen).1 ≡ entry_of k files
unfolding detect
detect-tracking k files seen d =
    purge-lookup k files (scan files seen).1 ∙ elim (Bool-cases (contains k (names files))) [
      | inl c ↦
          rw (c, if◌then◌else◌, scan-lookup k files seen d)
            (listed-or_else k files (lookup k seen) c)
      | inr c ↦ rw (c, if◌then◌else◌, entry-none k files c)
    ]

-- Of two rounds in a row, the second hands on, in the order of its listing, exactly the files whose
-- size and time are those of the first listing, whatever was tracked before. Each listing names each
-- file once.
pub detect-twice :
    (files files' : List SftpFileInfo) (seen : Seen)
    → IsDistinct files
    → IsDistinct files'
    → (detect files' (detect files seen).1).0
      ≡ select (λ f. is_unchanged f (entry_of f.filename files)) files'
unfolding detect
detect-twice files files' seen d d' =
    scan-stable files' (purge files (scan files seen).1) d'
    ∙ select-ext (λ f. is_unchanged f (lookup f.filename (purge files (scan files seen).1)))
        (λ f. is_unchanged f (entry_of f.filename files)) files'
        (λ f. ap (is_unchanged f) (detect-tracking f.filename files seen d))
