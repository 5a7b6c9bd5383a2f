-- ===== src/RemoteDep/Trees.antt =====
-- The trees along which src/remote_dep.c broadcasts: every process but the root is the child of
-- exactly one process, which stands before it.
use native.Mathlib.Nat.{one-le-pow, pow-suc, div-lt_iff_lt-mul, le-div_iff_mul-le}
use dague_hsa.Prelude.{
  ℕ, zero, suc, ◌-◌, ◌*◌, ◌/◌, ◌%◌, ◌^◌, ◌≤◌, ◌<◌, ◌≡◌, refl, sym, ◌∙◌, arith, Bool, true, false,
  Option, some, none, ◌==◌, inl, inr, Bool-cases, ==_iff,
}
use dague_hsa.RemoteDep.{chainpipeline_child, binonial_child, star_child, clear_leftmost}

-- A tree of the numbers from 0 to below a bound, rooted at 0: every other number has a parent that is
-- smaller, and no second parent; and who does not know its number is nobody's parent.
pub record IsTree (bound : ℕ) (child : Option ℕ → ℕ → Bool) : Type 0 where
  pub parent : ℕ → ℕ
  pub parent-lt : (him : ℕ) → 0 < him → him < bound → parent him < him
  pub parent-child : (him : ℕ) → 0 < him → him < bound → child (some (parent him)) him ≡ true
  pub child-parent :
      (me him : ℕ) → 0 < him → him < bound → child (some me) him ≡ true → me ≡ parent him
  pub child-none : (him : ℕ) → child none him ≡ false

pub chainpipeline_child-IsTree : (bound : ℕ) → IsTree bound chainpipeline_child
unfolding chainpipeline_child
chainpipeline_child-IsTree bound = record {
  parent = λ him. him - 1;
  parent-lt = λ him p h. omega arith;
  parent-child = λ him p h. ground arith;
  child-parent = λ me him p h c. ground arith;
  child-none = λ him. refl;
}

pub star_child-IsTree : (bound : ℕ) → IsTree bound star_child
unfolding star_child
star_child-IsTree bound = record {
  parent = λ him. 0;
  parent-lt = λ him p h. p;
  parent-child = λ him p h. refl;
  child-parent = λ me him p h c. ground arith;
  child-none = λ him. refl;
}

clear_leftmost-lt : (k him : ℕ) → 0 < him → him < 2 ^ k → clear_leftmost k him < him
unfolding clear_leftmost
clear_leftmost-lt zero him p h = absurd (omega arith)
clear_leftmost-lt (suc k) him p h =
    let pos : 0 < 2 ^ k = one-le-pow k 2 (omega arith) in
    let whole : him / 2 ^ k < 2 = (div-lt_iff_lt-mul pos).1 (omega (arith, pow-suc 2 k)) in
    elim (Bool-cases (him / 2 ^ k % 2 == 1)) [
      | inl bit ↦
          let low : 1 * 2 ^ k ≤ him = (le-div_iff_mul-le pos).0 (ground arith) in
          rw bit (omega arith)
      | inr gap ↦
          let less : him < 1 * 2 ^ k = (div-lt_iff_lt-mul pos).0 (ground arith) in
          rw gap (clear_leftmost-lt k him p (omega arith))
    ]

binonial_child_lem :
    (me him : ℕ) → 0 < him → binonial_child (some me) him ≡ (clear_leftmost 32 him == me)
unfolding binonial_child
binonial_child_lem me him p = let e : (him == 0) ≡ false = ground arith in rw e refl

binonial_child-none : (him : ℕ) → binonial_child none him ≡ false
unfolding binonial_child
binonial_child-none him = refl

-- `remote_dep_bcast_binonial_child` makes a tree of any 2^31 numbers or fewer, those that an `int` that
-- is not negative can be: every number but 0 is
-- the child of exactly one number, which is smaller, and nobody is the child of a process that does
-- not know its number.
pub binonial_child-IsTree : (bound : ℕ) → bound ≤ 2 ^ 31 → IsTree bound binonial_child
binonial_child-IsTree bound fits = record {
  parent = λ him. clear_leftmost 32 him;
  parent-lt = λ him p h. clear_leftmost-lt 32 him p (omega arith);
  parent-child = λ him p h. binonial_child_lem _ him p ∙ (==_iff _ _).1 refl;
  child-parent = λ me him p h c. sym ((==_iff _ _).0 (sym (binonial_child_lem me him p) ∙ c));
  child-none = λ him. binonial_child-none him;
}
