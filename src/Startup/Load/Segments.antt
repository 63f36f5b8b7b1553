-- ===== src/Startup/Load/Segments.antt =====
-- All segments of a binary are loaded.
use bootstrap.Prelude.{
  ℕ, ◌+◌, ◌≤◌, ◌<◌, ◌≡◌, ◌⊎◌, ◌∙◌, inl, inr, refl, Bool, true, false, some, List, [], ◌∷◌, Result,
  ok, ◌==◌, Bool-cases, arith,
}
use bootstrap.Region.{Region, point}
use bootstrap.RegionList.{find}
use bootstrap.Startup.ElfLoad.{
  ProgramHeader, BootModule, ElfTypes, is_some, exec_headers, exec_load_elf,
}
use bootstrap.Startup.Load.{Loaded, read_exec}
use bootstrap.Startup.Load.Segment.{target, to_load, IsPlaced, Filled, read_exec-Filled}

-- A file with both marks has its headers handled.
exec_load_elf-exec_headers :
    (handler : Loaded → ProgramHeader → Result (ℕ × Loaded)) (m : BootModule) (s s' : Loaded)
    → m.has_magic ≡ true
    → m.has_arch ≡ true
    → exec_headers handler m.headers s ≡ ok (0, s')
    → exec_load_elf handler s m ≡ ok (some 0, s')
unfolding exec_load_elf
exec_load_elf-exec_headers handler m s s' magic arch r = simp (magic, arch, r)

module _ (t : ElfTypes) (sysalloc ram : List Region) (offset : ℕ) (m : BootModule) where
  abbrev at : ProgramHeader → ℕ
  at ph = target t sysalloc ram offset m ph

  abbrev loads : ProgramHeader → Bool
  loads ph = to_load t sysalloc ram offset m ph

  -- The bytes of a segment: those of the file, then zeros.
  pub record HasSegment (bytes bytes' : ℕ → ℕ) (ph : ProgramHeader) : Type 0 where
    pub file : (k : ℕ) → k < ph.p_filesz → bytes' (at ph + k) ≡ bytes (m.start + ph.p_offset + k)
    pub zeros : (k : ℕ) → ph.p_filesz ≤ k → k < ph.p_memsz → bytes' (at ph + k) ≡ 0

  -- An address outside of a segment, and two segments that have no address in common.
  abbrev pub Outside : ℕ → ProgramHeader → Type 0
  Outside x ph = (x < at ph) ⊎ (at ph + ph.p_memsz ≤ x)

  abbrev pub Apart : ProgramHeader → ProgramHeader → Type 0
  Apart p q = (at p + p.p_memsz ≤ at q) ⊎ (at q + q.p_memsz ≤ at p)

  -- What holds of all segments that are loaded.
  abbrev pub All : (ProgramHeader → Type 0) → List ProgramHeader → Type 0
  All P [] = Unit
  All P (ph ∷ phs) = (loads ph ≡ true → P ph) × All P phs

  -- Every segment is apart from those behind it.
  abbrev pub AllApart : List ProgramHeader → Type 0
  AllApart [] = Unit
  AllApart (ph ∷ phs) = (loads ph ≡ true → All (Apart ph) phs) × AllApart phs

  All-map :
      (P Q : ProgramHeader → Type 0) (phs : List ProgramHeader)
      → ((ph : ProgramHeader) → P ph → Q ph)
      → All P phs
      → All Q phs
  All-map P Q [] f h = tt
  All-map P Q (ph ∷ phs) f h = (λ l. f ph (h.0 l), All-map P Q phs f h.1)

  All-zip :
      (P Q R : ProgramHeader → Type 0) (phs : List ProgramHeader)
      → ((ph : ProgramHeader) → P ph → Q ph → R ph)
      → All P phs
      → All Q phs
      → All R phs
  All-zip P Q R [] f g h = tt
  All-zip P Q R (ph ∷ phs) f g h = (λ l. f ph (g.0 l) (h.0 l), All-zip P Q R phs f g.1 h.1)

  -- A byte of one segment lies outside of those that are apart from it.
  Outside-All :
      (ph : ProgramHeader) (phs : List ProgramHeader) (k : ℕ)
      → k < ph.p_memsz
      → All (Apart ph) phs
      → All (Outside (at ph + k)) phs
  Outside-All ph phs k h = All-map (Apart ph) (Outside (at ph + k)) phs outside
    where
      outside : (q : ProgramHeader) → Apart ph q → Outside (at ph + k) q
      outside q (inl a) = inl (omega (arith, a, h))
      outside q (inr a) = inr (omega (arith, a, h))

  -- The outcome: every segment is there, and the other bytes are as before.
  pub record AllLoaded (s s' : Loaded) (phs : List ProgramHeader) : Type 0 where
    pub segments : All (HasSegment s.bytes s'.bytes) phs
    pub others : (x : ℕ) → All (Outside x) phs → s'.bytes x ≡ s.bytes x

  -- A header that is not loaded changes nothing.
  read_exec_skip :
      (s : Loaded) (ph : ProgramHeader)
      → loads ph ≡ false
      → read_exec t sysalloc ram offset m s ph ≡ ok (0, s)
  unfolding read_exec
  read_exec_skip s ph e = elim (Bool-cases (ph.p_memsz == 0)) [
    | inl z ↦ rw (z) refl
    | inr z ↦
        let other : (ph.p_type == t.pt_load) ≡ false = ground (arith, e, z) in rw (z, other) refl
  ]

  AllLoaded-skip :
      (s s' : Loaded) (ph : ProgramHeader) (phs : List ProgramHeader)
      → loads ph ≡ false
      → AllLoaded s s' phs
      → AllLoaded s s' (ph ∷ phs)
  AllLoaded-skip s s' ph phs e l = record {
    segments = (λ h. absurd (cc (h, e)), l.segments);
    others = λ x o. l.others x o.1;
  }

  module _ (s s1 s' : Loaded) (ph : ProgramHeader) (phs : List ProgramHeader)
      (p : IsPlaced t sysalloc ram offset m s.list.regs ph)
      (f : Filled (at ph) (m.start + ph.p_offset) ph.p_filesz ph.p_memsz s.bytes s1.bytes)
      (l : AllLoaded s1 s' phs) where
    -- The file is as before.
    file_kept : (x : ℕ) → m.start ≤ x → x < m.end → s1.bytes x ≡ s.bytes x
    file_kept x low high = f.others x (side p.apart)
      where
        side : (at ph + ph.p_memsz ≤ m.start) ⊎ (m.end ≤ at ph) → Outside x ph
        side (inl h) = inr (omega (arith, h, low))
        side (inr h) = inl (omega (arith, h, high))

    HasSegment-before :
        (q : ProgramHeader)
        → IsPlaced t sysalloc ram offset m s.list.regs q
        → HasSegment s1.bytes s'.bytes q
        → HasSegment s.bytes s'.bytes q
    HasSegment-before q placed has = record {
      file = λ k h.
          has.file k h
          ∙ file_kept (m.start + q.p_offset + k) (omega arith) (omega (arith, placed.in_file, h));
      zeros = has.zeros;
    }

    HasSegment-new : All (Apart ph) phs → HasSegment s.bytes s'.bytes ph
    HasSegment-new a = record {
      file = λ k h. kept k (omega (arith, h, p.in_memory)) ∙ f.file k h;
      zeros = λ k h u. kept k u ∙ f.zeros k h u;
    }
      where
        kept : (k : ℕ) → k < ph.p_memsz → s'.bytes (at ph + k) ≡ s1.bytes (at ph + k)
        kept k u = l.others (at ph + k) (Outside-All ph phs k u a)

    AllLoaded-cons :
        loads ph ≡ true
        → All (Apart ph) phs
        → All (IsPlaced t sysalloc ram offset m s.list.regs) phs
        → AllLoaded s s' (ph ∷ phs)
    AllLoaded-cons e a ps = record {
      segments = (
        λ _. HasSegment-new a,
        All-zip (IsPlaced t sysalloc ram offset m s.list.regs) (HasSegment s1.bytes s'.bytes)
            (HasSegment s.bytes s'.bytes) phs HasSegment-before ps l.segments,
      );
      others = λ x o. l.others x o.1 ∙ f.others x (o.0 e);
    }

  pub exec_headers-AllLoaded :
      (t.pt_load == 0) ≡ false
      → (phs : List ProgramHeader) (s : Loaded)
      → All (IsPlaced t sysalloc ram offset m s.list.regs) phs
      → AllApart phs
      → (s' : Loaded) × (exec_headers (read_exec t sysalloc ram offset m) phs s ≡ ok (0, s'))
        × AllLoaded s s' phs
  unfolding exec_headers
  exec_headers-AllLoaded d [] s p a = (s, refl, record { segments = tt; others = λ x o. refl })
  exec_headers-AllLoaded d (ph ∷ phs) s p a = elim (Bool-cases (loads ph)) [
    | inr e ↦
        let (s', r, l) = exec_headers-AllLoaded d phs s p.1 a.1 in
        (s', skipped s' e r, AllLoaded-skip s s' ph phs e l)
    | inl e ↦
        let (s1, r1, f, same) = read_exec-Filled t sysalloc ram offset m s ph e (p.0 e) in
        let (s', r, l) = exec_headers-AllLoaded d phs s1 (still s1 same p.1) a.1 in
        (s', rw (some_type e, r1) r, AllLoaded-cons s s1 s' ph phs (p.0 e) f l e (a.0 e) p.1)
  ]
    where
      some_type : loads ph ≡ true → (ph.p_type == 0) ≡ false
      some_type e = ground (arith, e, d)

      skipped :
          (s' : Loaded)
          → loads ph ≡ false
          → exec_headers (read_exec t sysalloc ram offset m) phs s ≡ ok (0, s')
          → exec_headers (read_exec t sysalloc ram offset m) (ph ∷ phs) s ≡ ok (0, s')
      skipped s' e r = elim (Bool-cases (ph.p_type == 0)) [
        | inl z ↦ rw (z) r
        | inr z ↦ rw (z, read_exec_skip s ph e) r
      ]

      still :
          (s1 : Loaded)
          → ((o : Region) → is_some (find s1.list.regs o) ≡ is_some (find s.list.regs o))
          → All (IsPlaced t sysalloc ram offset m s.list.regs) phs
          → All (IsPlaced t sysalloc ram offset m s1.list.regs) phs
      still s1 same =
          All-map (IsPlaced t sysalloc ram offset m s.list.regs)
            (IsPlaced t sysalloc ram offset m s1.list.regs) phs
            (λ q h. record {
              fits = h.fits;
              in_memory = h.in_memory;
              in_file = h.in_file;
              file_fits = h.file_fits;
              apart = h.apart;
              in_sysalloc = h.in_sysalloc;
              in_ram = h.in_ram;
              in_region = same (point (at q)) ∙ h.in_region;
            })

  -- A binary with the two marks of an ELF file, whose segments have places that are apart from each
  -- other and from the file, is loaded without a panic: every segment then has the bytes of the file
  -- and zeros behind them, and all other bytes are as before.
  pub exec_load_elf-AllLoaded :
      (t.pt_load == 0) ≡ false
      → m.has_magic ≡ true
      → m.has_arch ≡ true
      → (s : Loaded) → All (IsPlaced t sysalloc ram offset m s.list.regs) m.headers
      → AllApart m.headers
      → (s' : Loaded) × (exec_load_elf (read_exec t sysalloc ram offset m) s m ≡ ok (some 0, s'))
        × AllLoaded s s' m.headers
  exec_load_elf-AllLoaded d magic arch s p a =
      let (s', r, l) = exec_headers-AllLoaded d m.headers s p a in
      (s', exec_load_elf-exec_headers (read_exec t sysalloc ram offset m) m s s' magic arch r, l)
