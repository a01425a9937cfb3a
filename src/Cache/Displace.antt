-- ===== src/Cache/Displace.antt =====
-- What a displacement does to a line of the cache of src/dcache_bram.v.
use rv32imac_soc.Common.{
  ℕ, ◌+◌, ◌*◌, ◌/◌, ◌%◌, ◌<◌, ◌≡◌, ◌≢◌, refl, sym, ap, ◌∙◌, ◌==◌, ==_iff, and_true, Bool-cases,
  true, false, ◌&&◌, not, inl, inr, if◌then◌else◌, arith,
}
use native.Mathlib.Nat.{div-add-mod, mod-lt}
use rv32imac_soc.Cache.Hw.{Line, Memory, idx, tag_of, resident, write_back, refill, access}

module _ (num_sets : ℕ) (pos : 0 < num_sets) where
  -- What DRAM holds for a line once the cache has let go of it: the cached line if it is resident
  -- and dirty, and what DRAM holds already if not.
  abbrev pub backed : ℕ → Memory → Line
  backed la m =
      if resident num_sets la m && (m.entries (idx num_sets la)).dirty
      then (m.entries (idx num_sets la)).line
      else m.dram la

  split_line :
      (t i : ℕ)
      → i < num_sets
      → ((t * num_sets + i) / num_sets ≡ t) × ((t * num_sets + i) % num_sets ≡ i)
  split_line t i h = (grind arith, grind arith)

  pub same_line :
      (la lb : ℕ)
      → idx num_sets la ≡ idx num_sets lb
      → tag_of num_sets la ≡ tag_of num_sets lb
      → la ≡ lb
  same_line la lb hi ht =
      omega (arith, div-add-mod la num_sets, div-add-mod lb num_sets, ap (λ t. num_sets * t) ht)

  at_line :
      (t i lb : ℕ)
      → i < num_sets
      → t * num_sets + i ≡ lb
      → (t ≡ tag_of num_sets lb) × (i ≡ idx num_sets lb)
  at_line t i lb h e = (
    sym (split_line t i h).0 ∙ ap (λ x. x / num_sets) e,
    sym (split_line t i h).1 ∙ ap (λ x. x % num_sets) e,
  )

  of_line : (t i lb : ℕ) → t ≡ tag_of num_sets lb → i ≡ idx num_sets lb → t * num_sets + i ≡ lb
  of_line t i lb et ei = rw (et, ei) (omega (arith, div-add-mod lb num_sets))

  -- The victim of a miss of another line goes elsewhere.
  target :
      (t la lb : ℕ)
      → (t * num_sets + idx num_sets la == lb)
        ≡ (t == tag_of num_sets lb && idx num_sets la == idx num_sets lb)
  target t la lb =
      ground (arith, at_line t (idx num_sets la) lb (mod-lt la pos), of_line t (idx num_sets la) lb)

  -- DRAM at a line after the write-back of a victim.
  pub write_back-at :
      (la lb : ℕ) (m : Memory)
      → let victim = m.entries (idx num_sets la) in
        write_back num_sets la m lb ≡ (
          if (victim.valid && victim.dirty)
            && (victim.tag == tag_of num_sets lb && idx num_sets la == idx num_sets lb)
          then victim.line
          else m.dram lb)
  unfolding write_back
  write_back-at la lb m = ground (arith, target (m.entries (idx num_sets la)).tag la lb)

  -- Serving another line neither brings this one in nor changes what it is backed by.
  access_hit :
      (la lb : ℕ) (m : Memory)
      → la ≢ lb
      → resident num_sets la m ≡ true
      → resident num_sets lb m
        ≡ (resident num_sets lb m && not (idx num_sets la == idx num_sets lb))
  access_hit la lb m ne h = elim (Bool-cases (idx num_sets la == idx num_sets lb)) [
    | inr apart ↦ rw apart (and_true _)
    | inl together ↦
        let e : idx num_sets la ≡ idx num_sets lb = (==_iff _ _).0 together in
        let out : resident num_sets lb m ≡ false =
          ground (arith, ap m.entries e, same_line la lb e) in
        rw (together, out)
  ]

  pub access_other :
      (la lb : ℕ) (m : Memory)
      → la ≢ lb
      → (backed lb (access num_sets la m) ≡ backed lb m)
        × (resident num_sets lb (access num_sets la m)
            ≡ (resident num_sets lb m && not (idx num_sets la == idx num_sets lb)))
  unfolding access refill
  access_other la lb m ne = elim (Bool-cases (resident num_sets la m)) [
    | inl hit ↦ rw hit (refl, access_hit la lb m ne hit)
    | inr miss ↦ elim (Bool-cases (idx num_sets la == idx num_sets lb)) [
      | inr apart ↦ rw (miss, apart) (ground (arith, write_back-at la lb m, apart), and_true _)
      | inl together ↦
          let e : idx num_sets la ≡ idx num_sets lb = (==_iff _ _).0 together in
          let tags : (tag_of num_sets la == tag_of num_sets lb) ≡ false =
            ground (arith, same_line la lb e) in
          rw (miss, together, tags)
            (ground (arith, write_back-at la lb m, ap m.entries e, together), ground arith)
    ]
  ]
