-- ===== src/Distribution/SymTwoDim/Memory.antt =====
-- The memory that `sym_two_dim_block_cyclic_init` of sym_two_dim_rectangle_cyclic.c asks for, and the
-- positions of the tiles in it.
use mathlib.Core.Path.{subst}
use dague_hsa.Prelude.{ℕ, ◌*◌, ◌≡◌, refl, Option, none, some}
use dague_hsa.Distribution.{w64, ready, exits}
use dague_hsa.Distribution.SymTwoDim.{SymTwoDim, allocate_tiles}

module _ (allocate : ℕ → Option ℕ) where
  -- a description with memory for so many tiles
  abbrev HasMemory : SymTwoDim → SymTwoDim → ℕ → Type 0
  HasMemory d0 d total =
      (allocate (w64 (w64 (total * d.matrix.bsiz) * d.matrix.params.mtype)) ≡ some d.mat)
      × (record d0 { mat = d.mat } ≡ d)

  ready-eq : {a b : SymTwoDim} → ready a ≡ ready b → a ≡ b
  ready-eq e = cc

  from_memory :
      (d0 d : SymTwoDim) (total : ℕ) (o : Option ℕ)
      → allocate (w64 (w64 (total * d0.matrix.bsiz) * d0.matrix.params.mtype)) ≡ o
      → elim o [ none ↦ exits | some mat ↦ ready (record d0 { mat = mat }) ] ≡ ready d
      → HasMemory d0 d total
  from_memory d0 d total none e h = absurd (cc)
  from_memory d0 d total (some mat) e h =
      subst (λ (x : SymTwoDim). HasMemory d0 x total) (ready-eq h) (e, refl)

  allocated :
      (d0 d : SymTwoDim) (o : Option ℕ)
      → allocate_tiles allocate d0 o ≡ ready d
      → (total : ℕ) × (o ≡ some total) × HasMemory d0 d total
  unfolding allocate_tiles
  allocated d0 d none h = absurd (cc)
  allocated d0 d (some total) h = (
    total,
    refl,
    from_memory d0 d total (allocate (w64 (w64 (total * d0.matrix.bsiz) * d0.matrix.params.mtype)))
        refl h,
  )
