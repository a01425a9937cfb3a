-- ===== src/Cache/Flat.antt =====
-- The cache of src/dcache_bram.v in front of DRAM is a flat memory to the CPU.
use rv32imac_soc.Common.{
  ℕ, ◌/◌, ◌%◌, ◌<◌, ◌≡◌, ◌≢◌, refl, sym, ap, ◌∙◌, subst, ◌==◌, ==_iff, ==_refl, Bool-cases, true,
  false, inl, inr, u8, if◌then◌else◌, arith,
}
use rv32imac_soc.Cache.Hw.{
  Line, Memory, set_at, idx, tag_of, resident, write_back, refill, access, load, store,
}
use rv32imac_soc.Cache.Displace.{backed, same_line, write_back-at, access_other}
use rv32imac_soc.Cache.Coherence.{IsSynced, access_hit, access_miss, load-backed}

module _ (num_sets : ℕ) (pos : 0 < num_sets) where
  -- The byte that the CPU sees at an address.
  abbrev pub view : Memory → ℕ → ℕ
  view m x = backed num_sets pos (x / 16) m (x % 16)

  -- Every clean line of the cache is what DRAM holds.
  abbrev pub IsCoherent : Memory → Type 0
  IsCoherent m = (lb : ℕ) → IsSynced num_sets lb m

  -- A miss brings the line in as it was backed.
  refill_same :
      (la : ℕ) (m : Memory)
      → resident num_sets la m ≡ false
      → backed num_sets pos la (refill num_sets la m) ≡ backed num_sets pos la m
  unfolding refill
  refill_same la m miss =
      rw (==_refl (idx num_sets la)) (ground (arith, write_back-at num_sets pos la la m, miss))

  refill-resident : (la : ℕ) (m : Memory) → resident num_sets la (refill num_sets la m) ≡ true
  unfolding refill
  refill-resident la m = rw (==_refl (idx num_sets la)) (==_refl (tag_of num_sets la))

  access_same :
      (la : ℕ) (m : Memory)
      → (backed num_sets pos la (access num_sets la m) ≡ backed num_sets pos la m)
        × (resident num_sets la (access num_sets la m) ≡ true)
  access_same la m = elim (Bool-cases (resident num_sets la m)) [
    | inl hit ↦
        let same = access_hit pos la m hit in
        (ap (backed num_sets pos la) same, ap (resident num_sets la) same ∙ hit)
    | inr miss ↦
        let filled = access_miss pos la m miss in
        (
          ap (backed num_sets pos la) filled ∙ refill_same la m miss,
          ap (resident num_sets la) filled ∙ refill-resident la m,
        )
  ]

  apart : (x y : ℕ) → (x == y) ≡ false → x ≢ y
  apart x y h e = ground arith

  -- No request changes what any line is backed by.
  pub access-backed :
      (la lb : ℕ) (m : Memory)
      → backed num_sets pos lb (access num_sets la m) ≡ backed num_sets pos lb m
  access-backed la lb m = elim (Bool-cases (la == lb)) [
    | inl same ↦
        subst (λ l. backed num_sets pos l (access num_sets la m) ≡ backed num_sets pos l m)
          ((==_iff la lb).0 same) (access_same la m).0
    | inr other ↦ (access_other num_sets pos la lb m (apart la lb other)).0
  ]

  refill-IsCoherent :
      (la : ℕ) (m : Memory)
      → resident num_sets la m ≡ false
      → IsCoherent m
      → IsCoherent (refill num_sets la m)
  unfolding refill
  refill-IsCoherent la m miss coherent lb = elim (Bool-cases (idx num_sets la == idx num_sets lb)) [
    | inr away ↦ rw away (λ held clean.
        coherent lb held clean ∙ ground (arith, write_back-at num_sets pos la lb m, away))
    | inl together ↦ rw together (λ tags clean.
        ap (write_back num_sets la m)
          (same_line num_sets pos la lb ((==_iff _ _).0 together) ((==_iff _ _).0 tags)))
  ]

  pub access-IsCoherent : (la : ℕ) (m : Memory) → IsCoherent m → IsCoherent (access num_sets la m)
  access-IsCoherent la m coherent = elim (Bool-cases (resident num_sets la m)) [
    | inl hit ↦ subst IsCoherent (sym (access_hit pos la m hit)) coherent
    | inr miss ↦
        subst IsCoherent (sym (access_miss pos la m miss)) (refill-IsCoherent la m miss coherent)
  ]

  -- A store into a line that the cache holds.
  written : ℕ → ℕ → Memory → Memory
  written x v m =
      let e = m.entries (idx num_sets (x / 16)) in
      record m {
        entries =
            set_at m.entries (idx num_sets (x / 16))
              (record e { dirty = true; line = set_at e.line (x % 16) (u8 v) });
      }

  store_lem :
      (x v : ℕ) (m : Memory) → store num_sets x v m ≡ written x v (access num_sets (x / 16) m)
  unfolding store written
  store_lem x v m = refl

  written-IsCoherent : (x v : ℕ) (m : Memory) → IsCoherent m → IsCoherent (written x v m)
  unfolding written
  written-IsCoherent x v m coherent lb =
      elim (Bool-cases (idx num_sets (x / 16) == idx num_sets lb)) [
        | inr away ↦ rw away (coherent lb)
        | inl together ↦ rw together (λ held clean. ground arith)
      ]

  -- The line of the address holds the byte, any other line is as it was.
  written_here :
      (x v : ℕ) (m : Memory)
      → resident num_sets (x / 16) m ≡ true
      → (o : ℕ)
      → backed num_sets pos (x / 16) (written x v m) o
        ≡ (if x % 16 == o then u8 v else (m.entries (idx num_sets (x / 16))).line o)
  unfolding written
  written_here x v m held o = rw (==_refl (idx num_sets (x / 16)), held) refl

  written_other :
      (x v lb : ℕ) (m : Memory)
      → resident num_sets (x / 16) m ≡ true
      → (x / 16 == lb) ≡ false
      → backed num_sets pos lb (written x v m) ≡ backed num_sets pos lb m
  unfolding written
  written_other x v lb m held other = elim (Bool-cases (idx num_sets (x / 16) == idx num_sets lb)) [
    | inr away ↦ rw away refl
    | inl together ↦
        let e : idx num_sets (x / 16) ≡ idx num_sets lb = (==_iff _ _).0 together in
        let away : ((m.entries (idx num_sets (x / 16))).tag == tag_of num_sets lb) ≡ false =
          ground (arith, same_line num_sets pos (x / 16) lb e, held, other) in
        rw (together, away) (ground (arith, ap m.entries e, away))
  ]

  -- A line that the cache holds is what the line is backed by.
  held_line :
      (la : ℕ) (m : Memory)
      → resident num_sets la m ≡ true
      → IsSynced num_sets la m
      → (m.entries (idx num_sets la)).line ≡ backed num_sets pos la m
  held_line la m held synced = elim (Bool-cases (m.entries (idx num_sets la)).dirty) [
    | inl dirty ↦ rw (held, dirty) refl
    | inr clean ↦ rw (held, clean) (synced held clean)
  ]

  -- What the CPU sees at y after a store at x into a line that the cache holds.
  view-written :
      (x v y : ℕ) (m : Memory)
      → resident num_sets (x / 16) m ≡ true
      → IsCoherent m
      → view (written x v m) y ≡ (if x == y then u8 v else view m y)
  view-written x v y m held coherent = elim (Bool-cases (x / 16 == y / 16)) [
    | inl same ↦
        let e : x / 16 ≡ y / 16 = (==_iff _ _).0 same in
        let same_byte : (x % 16 == y % 16) ≡ (x == y) = ground (arith, e) in
        ap (λ l. backed num_sets pos l (written x v m) (y % 16)) (sym e)
        ∙ written_here x v m held (y % 16)
        ∙ (λ i.
            if same_byte i then u8 v else held_line (x / 16) m held (coherent (x / 16)) i (y % 16))
        ∙ ap (λ l. if x == y then u8 v else backed num_sets pos l m (y % 16)) e
    | inr other ↦
        let apart : (x == y) ≡ false = ground arith in
        ap (λ (l : Line). l (y % 16)) (written_other x v (y / 16) m held other)
        ∙ ap (λ b. if b then u8 v else view m y) (sym apart)
  ]

  -- If every clean line of the cache is what DRAM holds, then a store keeps that so, and afterwards
  -- the CPU sees the byte at its address, modulo 256, and at every other address what it saw.
  pub store-view :
      (x v : ℕ) (m : Memory)
      → IsCoherent m
      → IsCoherent (store num_sets x v m)
        × ((y : ℕ) → view (store num_sets x v m) y ≡ (if x == y then u8 v else view m y))
  store-view x v m coherent =
      let m' = access num_sets (x / 16) m in
      let held = (access_same (x / 16) m).1 in
      (
        subst IsCoherent (sym (store_lem x v m))
            (written-IsCoherent x v m' (access-IsCoherent (x / 16) m coherent)),
        λ y.
            ap (λ m. view m y) (store_lem x v m)
            ∙ view-written x v y m' held (access-IsCoherent (x / 16) m coherent)
            ∙ ap (λ (l : Line). if x == y then u8 v else l (y % 16))
                (access-backed (x / 16) (y / 16) m),
      )

  -- If every clean line of the cache agrees with DRAM, a load returns what the CPU sees at its address,
  -- changes nothing of what it sees, and leaves clean lines in step with DRAM.
  pub load-view :
      (x : ℕ) (m : Memory)
      → IsCoherent m
      → let (v, m') = load num_sets x m in
        (v ≡ view m x) × IsCoherent m' × ((y : ℕ) → view m' y ≡ view m y)
  unfolding load
  load-view x m coherent = (
    load-backed pos x m (coherent (x / 16)),
    access-IsCoherent (x / 16) m coherent,
    λ y. ap (λ (l : Line). l (y % 16)) (access-backed (x / 16) (y / 16) m),
  )
