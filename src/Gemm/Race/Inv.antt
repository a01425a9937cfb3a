-- ===== src/Gemm/Race/Inv.antt =====
-- What holds of threads that race for the accelerator, and how a step of one keeps it.
use rv32imac_soc.Common.{
  ℕ, ◌≡◌, refl, sym, ap, ◌∙◌, subst, ◌==◌, ==_refl, ==_iff, Bool-cases, true, false, inl, inr,
  Option, none, some, List, [], ◌∷◌, ◌++◌, if◌then◌else◌, arith,
}
use mathlib.Core.List.{append-nil, append_assoc}
use rv32imac_soc.Gemm.World.{Effect, lock, unlock, Info, World}
use rv32imac_soc.Gemm.{Tile, Config}
use rv32imac_soc.Gemm.Submit.{submissions, tiles_of}
use rv32imac_soc.Gemm.Batch.{opening, script, Did}
use rv32imac_soc.Gemm.Race.{
  Stage, outside, admitted, pushing, kicked, Entry, batch, mode, Machine, move,
}
use rv32imac_soc.Gemm.Race.Woven.{Woven, Woven-Did}
use rv32imac_soc.Gemm.Race.Owner.{
  inside, IsOwned, holds-owner, IsOwned-take, IsOwned-keep, IsOwned-leave, IsOwned-pass,
}
use rv32imac_soc.Gemm.Race.Pieces.{entrance}

module _ (cfg : Config) (info : Info) where
  -- What a use of the lock does on the outside.
  abbrev pub done_by : Entry → List Effect
  done_by (batch job st) = script cfg info (tiles_of job.tiles) job.stride job.int8 job.shift st
  done_by mode = lock ∷ unlock ∷ []

  abbrev pub all_done : List Entry → List Effect
  all_done [] = []
  all_done (e ∷ es) = done_by e ++ all_done es

  pub all_done-append :
      (es : List Entry) (e : Entry) → all_done (es ++ (e ∷ [])) ≡ all_done es ++ done_by e
  all_done-append [] e = append-nil (done_by e)
  all_done-append (x ∷ es) e =
      ap (λ fs. done_by x ++ fs) (all_done-append es e)
      ∙ sym (append_assoc (done_by x) (all_done es) (done_by e))

  -- What a thread has done since it took the lock.
  abbrev pub begun_by : Stage → List Effect
  begun_by outside = []
  begun_by (admitted job) = []
  begun_by (pushing job pushed rest t_mark spent) =
      entrance cfg job.stride job.int8 job.shift ++ submissions cfg info pushed
  begun_by (kicked job marks) = opening cfg info (tiles_of job.tiles) job.stride job.int8 job.shift

  abbrev pub under_way : Option ℕ → (ℕ → Stage) → List Effect
  under_way none stage = []
  under_way (some i) stage = begun_by (stage i)

  under_way-move :
      (i : ℕ) (s : Stage) (owner : Option ℕ) (stage : ℕ → Stage)
      → inside (stage i) ≡ false
      → IsOwned owner stage
      → under_way owner (move i s stage) ≡ under_way owner stage
  under_way-move i s none stage was owned = refl
  under_way-move i s (some k) stage was owned = elim (Bool-cases (i == k)) [
    | inl same ↦
        ground
          (arith, owned i, ap (λ j. inside (stage j)) ((==_iff i k).0 same), owned k, ==_refl k)
    | inr apart ↦ rw apart refl
  ]

-- The tiles pushed and those left are the tiles of the batch.
abbrev pub Divides : Stage → Type 0
Divides outside = Unit {0}
Divides (admitted job) = Unit {0}
Divides (pushing job pushed rest t_mark spent) = pushed ++ rest ≡ tiles_of job.tiles
Divides (kicked job marks) = Unit {0}

pub record Inv (cfg : Config) (before : List Effect) (info : Info) (m : Machine) : Type 0 where
  pub owned : IsOwned m.owner m.stage
  pub divides : (i : ℕ) → Divides (m.stage i)
  pub geometry : m.world.gemm.info ≡ info
  pub traced :
      Woven before (all_done cfg info m.log ++ under_way cfg info m.owner m.stage) m.world.effects

pub Divides-move :
    (i : ℕ) (s : Stage) (stage : ℕ → Stage)
    → Divides s
    → ((j : ℕ) → Divides (stage j))
    → (j : ℕ) → Divides (move i s stage j)
Divides-move i s stage now all j = elim (Bool-cases (i == j)) [
  | inl here ↦ rw here now
  | inr away ↦ rw away (all j)
]

pub submissions-append :
    (cfg : Config) (info : Info) (ts us : List Tile)
    → submissions cfg info (ts ++ us) ≡ submissions cfg info ts ++ submissions cfg info us
submissions-append cfg info [] us = refl
submissions-append cfg info (t ∷ ts) us = simp (submissions-append cfg info ts us, append_assoc)

module _ {cfg : Config} {before : List Effect} {info : Info} where
  -- A step that leaves the threads alone, and does nothing on the outside.
  pub idle :
      {m : Machine} (w : World)
      → w.effects ≡ m.world.effects
      → w.gemm.info ≡ m.world.gemm.info
      → Inv cfg before info m
      → Inv cfg before info (record m { world = w })
  idle {m} w quiet kept inv = record {
    owned = inv.owned;
    divides = inv.divides;
    geometry = kept ∙ inv.geometry;
    traced = subst (Woven before _) (sym quiet) inv.traced;
  }

  -- A step of the thread that is inside, and stays there.
  pub inside_step :
      (i : ℕ) (s : Stage) {m : Machine} {fs : List Effect} (w : World)
      → inside (m.stage i) ≡ true
      → inside s ≡ true
      → Divides s
      → begun_by cfg info s ≡ begun_by cfg info (m.stage i) ++ fs
      → Did fs m.world w
      → Inv cfg before info m
      → Inv cfg before info (record m { world = w; stage = move i s m.stage })
  inside_step i s {m} {fs} w was now divided more did inv =
      let owner : m.owner ≡ some i = holds-owner m.owner i (sym (inv.owned i) ∙ was) in
      record {
        owned =
            subst (λ o. IsOwned o (move i s m.stage)) (sym owner)
              (IsOwned-keep i s m.stage now (subst (λ o. IsOwned o m.stage) owner inv.owned));
        divides = Divides-move i s m.stage divided inv.divides;
        geometry = did.info ∙ inv.geometry;
        traced =
            subst (λ es. Woven before es w.effects)
              (append_assoc (all_done cfg info m.log) _ fs
                ∙ ap (λ es. all_done cfg info m.log ++ es)
                    (ap (λ o. under_way cfg info o m.stage ++ fs) owner
                      ∙ sym more
                      ∙ ap (λ b. begun_by cfg info (if b then s else m.stage i)) (sym (==_refl i))
                      ∙ ap (λ o. under_way cfg info o (move i s m.stage)) (sym owner)))
              (Woven-Did did inv.traced);
      }

  -- A step of a thread that is outside, and stays there.
  pub outside_step :
      (i : ℕ) (s : Stage) {m : Machine} (w : World)
      → inside (m.stage i) ≡ false
      → inside s ≡ false
      → Divides s
      → w.effects ≡ m.world.effects
      → w.gemm.info ≡ m.world.gemm.info
      → Inv cfg before info m
      → Inv cfg before info (record m { world = w; stage = move i s m.stage })
  outside_step i s {m} w was now divided quiet kept inv = record {
    owned = IsOwned-pass i s m.stage m.owner was now inv.owned;
    divides = Divides-move i s m.stage divided inv.divides;
    geometry = kept ∙ inv.geometry;
    traced =
        subst (λ es. Woven before (all_done cfg info m.log ++ es) w.effects)
          (sym (under_way-move cfg info i s m.owner m.stage was inv.owned))
          (subst (Woven before _) (sym quiet) inv.traced);
  }

  -- A thread takes the lock.
  pub take_step :
      (i : ℕ) (s : Stage) {m : Machine} (w : World)
      → m.owner ≡ none
      → inside s ≡ true
      → Divides s
      → Did (begun_by cfg info s) m.world w
      → Inv cfg before info m
      → Inv cfg before info (record m { world = w; owner = some i; stage = move i s m.stage })
  take_step i s {m} w free now divided did inv = record {
    owned = IsOwned-take i s m.stage now (subst (λ o. IsOwned o m.stage) free inv.owned);
    divides = Divides-move i s m.stage divided inv.divides;
    geometry = did.info ∙ inv.geometry;
    traced =
        subst (λ es. Woven before es w.effects)
          (append_assoc (all_done cfg info m.log) _ (begun_by cfg info s)
            ∙ ap (λ es. all_done cfg info m.log ++ es)
                (ap (λ o. under_way cfg info o m.stage ++ begun_by cfg info s) free
                  ∙ ap (λ b. begun_by cfg info (if b then s else m.stage i)) (sym (==_refl i))))
          (Woven-Did did inv.traced);
  }

  -- A thread gives the lock back, and what it did under it is the script of the entry.
  pub leave_step :
      (i : ℕ) (e : Entry) {m : Machine} {fs : List Effect} (w : World)
      → inside (m.stage i) ≡ true
      → begun_by cfg info (m.stage i) ++ fs ≡ done_by cfg info e
      → Did fs m.world w
      → Inv cfg before info m
      → Inv cfg before info (record m {
        world = w;
        owner = none;
        stage = move i outside m.stage;
        log = m.log ++ (e ∷ []);
      })
  leave_step i e {m} {fs} w was whole did inv =
      let owner : m.owner ≡ some i = holds-owner m.owner i (sym (inv.owned i) ∙ was) in
      record {
        owned =
            IsOwned-leave i outside m.stage refl (subst (λ o. IsOwned o m.stage) owner inv.owned);
        divides = Divides-move i outside m.stage tt inv.divides;
        geometry = did.info ∙ inv.geometry;
        traced =
            subst (λ es. Woven before es w.effects)
              (append_assoc (all_done cfg info m.log) _ fs
                ∙ ap (λ es. all_done cfg info m.log ++ es)
                    (ap (λ o. under_way cfg info o m.stage ++ fs) owner ∙ whole)
                ∙ sym (all_done-append cfg info m.log e)
                ∙ sym (append-nil _))
              (Woven-Did did inv.traced);
      }
