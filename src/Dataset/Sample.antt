-- ===== src/Dataset/Sample.antt =====
-- Files in memory, as one choice of the file system, and two small blocks.
use smaran.Prelude.{ℕ, ◌≡◌, ◌≢◌, refl, ap, ◌∙◌, arith, Bool, true, false, ◌==◌, ◌&&◌, if◌then◌else◌}
use smaran.Prelude.{List, [], ◌∷◌, ◌++◌, Option, none, some, Bool-cases, inl, inr, replicate}
use smaran.Dataset.Accepted.{Accepts}
use smaran.Dataset.{SegmentName, Extension, dat, idx, FileSystem, FileLaws, Entry}

abbrev same_ext : Extension → Extension → Bool
same_ext dat dat = true
same_ext dat idx = false
same_ext idx dat = false
same_ext idx idx = true

abbrev same_name : SegmentName → SegmentName → Bool
same_name f g = f.base == g.base && f.end == g.end && same_ext f.ext g.ext

same_ext-eq : (e x : Extension) → same_ext e x ≡ true → e ≡ x
same_ext-eq dat dat h = refl
same_ext-eq dat idx h = absurd (cc)
same_ext-eq idx dat h = absurd (cc)
same_ext-eq idx idx h = refl

same_ext_refl : (e : Extension) → same_ext e e ≡ true
same_ext_refl dat = refl
same_ext_refl idx = refl

same_name_refl : (f : SegmentName) → same_name f f ≡ true
same_name_refl f = ground (arith, same_ext_refl f.ext)

same_name-eq : (f g : SegmentName) → same_name f g ≡ true → f ≡ g
same_name-eq f g h =
    let base : f.base ≡ g.base = ground arith in
    let end : f.end ≡ g.end = ground arith in
    let ext : f.ext ≡ g.ext = same_ext-eq f.ext g.ext (ground arith) in
    λ i. record { base = base i; end = end i; ext = ext i }

abbrev Memory : Type 0
Memory = SegmentName → Option (List ℕ)

abbrev set_file : SegmentName → List ℕ → Memory → Memory
set_file f bytes m g = if same_name f g then some bytes else m g

abbrev put_file : SegmentName → List ℕ → Option (List ℕ) → Memory → Bool × Memory
put_file f bytes none m = (true, set_file f bytes m)
put_file f bytes (some old) m = (true, set_file f (old ++ bytes) m)

abbrev pub memory : FileSystem
memory = record {
  Disk = Memory;
  create = λ f m. (true, set_file f [] m);
  write = λ f bytes m. put_file f bytes (m f) m;
  read = λ f m. m f;
}

set_file-same : (f : SegmentName) (bytes : List ℕ) (m : Memory) → set_file f bytes m f ≡ some bytes
set_file-same f bytes m = rw (same_name_refl f) refl

set_file-other :
    (f g : SegmentName) (bytes : List ℕ) (m : Memory) → f ≢ g → set_file f bytes m g ≡ m g
set_file-other f g bytes m apart = elim (Bool-cases (same_name f g)) [
  | inl e ↦ absurd (apart (same_name-eq f g e))
  | inr e ↦ rw e refl
]

put_file-other :
    (f g : SegmentName) (bytes : List ℕ) (o : Option (List ℕ)) (m : Memory)
    → f ≢ g
    → (put_file f bytes o m).1 g ≡ m g
put_file-other f g bytes none m apart = set_file-other f g bytes m apart
put_file-other f g bytes (some old) m apart = set_file-other f g (old ++ bytes) m apart

put_file-old :
    (f : SegmentName) (bytes old : List ℕ) (o : Option (List ℕ)) (m : Memory)
    → o ≡ some old
    → (put_file f bytes o m).1 f ≡ some (old ++ bytes)
put_file-old f bytes old none m h = absurd (cc)
put_file-old f bytes old (some other) m h =
    let same : other ≡ old = cc in
    set_file-same f (other ++ bytes) m ∙ ap (λ l. some (l ++ bytes)) same

put_file-true :
    (f : SegmentName) (bytes : List ℕ) (o : Option (List ℕ)) (m : Memory)
    → (put_file f bytes o m).0 ≡ true
put_file-true f bytes none m = refl
put_file-true f bytes (some old) m = refl

pub memory-Accepts : Accepts memory
memory-Accepts = record {
  created = λ f m. refl;
  written = λ f bytes m. put_file-true f bytes (m f) m;
}

pub memory_laws : FileLaws memory
memory_laws = record {
  read-create = λ f m h. set_file-same f [] m;
  read-write = λ f bytes old m h held. put_file-old f bytes old (m f) m held;
  create-others = λ f g m apart. set_file-other f g [] m apart;
  write-others = λ f g bytes m apart. put_file-other f g bytes (m f) m apart;
}

abbrev pub blank : Memory
blank f = none

abbrev pub alice : Entry
alice = record { address = replicate 20 1; balance = 7 ∷ 8 ∷ [] }

abbrev pub bob : Entry
bob = record { address = replicate 20 2; balance = [] }
