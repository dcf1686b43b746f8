-- ===== src/Mir/Valid/Programs.antt =====
-- compiler/kyna_mir/src/validators/mir_verifier.cpp: `verifyMir` reports nothing exactly on valid programs.
use kyna.Base.{
  ℕ, ◌+◌, ◌<◌, ◌≡◌, ◌↔◌, Bool, false, ◌||◌, List, [], ◌∷◌, Option, none, some, String, arith,
  length, leb, ◌==◌, All,
}
use kyna.Diagnostics.{SourceSpan, unknown_span}
use kyna.Diagnostics.Decides.{
  Decides, Decides-nothing, Decides-append, Decides-iff, Decides-reported, Decides-report_if,
  leb_iff, ltb_iff, ne_iff, lt_iff,
}
use kyna.Bytecode.Valid.{EachOf}
use kyna.Mir.Program.{
  MirInstruction, MirTerminatorNode, MirTerminator, MirExceptionRegion, MirBasicBlock, MirFunction,
  MirClassMethod, MirClass, MirProgram,
}
use kyna.Mir.Verifier.{add_error_if}
use kyna.Mir.Verifier.Bodies.{
  verify_instructions, verify_node, verify_terminator, verify_blocks, verify_protected,
  verify_region, verify_regions, verify_body, verify_function, verify_functions, verify_methods,
  verify_class, verify_classes, verify_mir,
}
use kyna.Mir.Valid.{
  ValidInstruction, ValidNode, ValidTerminator, ValidBlock, ValidRegion, ValidBody, ValidFunction,
  ValidClass, ValidProgram,
}
use kyna.Mir.Valid.Instructions.{instruction}

check :
    {P : Type 0} {b : Bool} (span : SourceSpan) (message code : String)
    → (b ≡ false) ↔ P
    → Decides (add_error_if b message span code) P
unfolding add_error_if
check span message code e = Decides-report_if _ _ e

or_iff : (n a b : ℕ) → ((leb n a || leb n b) ≡ false) ↔ ((a < n) × (b < n))
or_iff n a b = (λ h. ground arith, λ h. ground arith)

entry_iff : (n entry : ℕ) → ((n == 0 || leb n entry) ≡ false) ↔ (entry < n)
entry_iff n entry = (λ h. ground arith, λ h. ground arith)

module _ (p : MirProgram) (name : String) (temporaries captures : ℕ) where
  instructions :
      (is : List MirInstruction)
      → Decides
          (verify_instructions p name temporaries captures is)
          (All (ValidInstruction p temporaries captures) is)
  unfolding verify_instructions
  instructions [] = Decides-nothing
  instructions (i ∷ is) = Decides-append (instruction p temporaries captures i) (instructions is)

  node :
      (blocks : ℕ) (span : SourceSpan) (n : MirTerminatorNode)
      → Decides
          (verify_node p name temporaries captures blocks span n)
          (ValidNode p temporaries captures blocks n)
  unfolding verify_node
  node blocks span (MirTerminatorNode.return value) = check _ _ _ (lt_iff _ _)
  node blocks span (MirTerminatorNode.goto target) = check _ _ _ (leb_iff _ _)
  node blocks span (MirTerminatorNode.branch c t f) =
      Decides-append (check _ _ _ (lt_iff _ _)) (check _ _ _ (or_iff _ _ _))
  node blocks span (MirTerminatorNode.throw value) = check _ _ _ (lt_iff _ _)

  terminator :
      (blocks index : ℕ) (t : Option MirTerminator)
      → Decides
          (verify_terminator p name temporaries captures blocks index t)
          (ValidTerminator p temporaries captures blocks t)
  unfolding verify_terminator
  terminator blocks index none = Decides-reported _ λ x. x
  terminator blocks index (some t) = node blocks t.span t.node

  body_blocks :
      (n index : ℕ) (blocks : List MirBasicBlock)
      → Decides
          (verify_blocks p name temporaries captures n index blocks)
          (All (ValidBlock p temporaries captures n) blocks)
  unfolding verify_blocks
  body_blocks n index [] = Decides-nothing
  body_blocks n index (block ∷ rest) =
      Decides-iff
        (Decides-append (instructions block.instructions)
          (Decides-append (terminator n index block.terminator) (body_blocks n (index + 1) rest)))
        (λ v. ((v.0, v.1.0), v.1.1)) λ v. (v.0.0, (v.0.1, v.1))

  protected :
      (n : ℕ) (blocks : List ℕ)
      → Decides (verify_protected p name temporaries captures n blocks) (All (λ b. b < n) blocks)
  unfolding verify_protected
  protected n [] = Decides-nothing
  protected n (b ∷ blocks) = Decides-append (check _ _ _ (leb_iff _ _)) (protected n blocks)

  regions :
      (n : ℕ) (rs : List MirExceptionRegion)
      → Decides
          (verify_regions p name temporaries captures n rs)
          (All (ValidRegion p temporaries captures n) rs)
  unfolding verify_regions verify_region
  regions n [] = Decides-nothing
  regions n (r ∷ rs) =
      Decides-append
        (Decides-append (check _ _ _ (ne_iff _ _)) (
          Decides-append (protected n r.protected_blocks)
            (Decides-append (check _ _ _ (leb_iff _ _)) (check _ _ _ (lt_iff _ _)))))
        (regions n rs)

  body :
      (parameters entry_block : ℕ) (blocks : List MirBasicBlock) (rs : List MirExceptionRegion)
      → Decides
          (verify_body p name temporaries captures parameters entry_block blocks rs)
          (ValidBody p temporaries captures parameters entry_block blocks rs)
  unfolding verify_body
  body parameters entry_block blocks rs =
      Decides-iff
        (Decides-append (check _ _ _ (entry_iff (length blocks) entry_block)) (
          Decides-append (check _ _ _ (ltb_iff temporaries parameters))
            (Decides-append (body_blocks (length blocks) 0 blocks) (regions (length blocks) rs))))
        (λ v. record { entry = v.0; room = v.1.0; each_block = v.1.1.0; each_region = v.1.1.1 })
        λ v. (v.entry, (v.room, (v.each_block, v.each_region)))

module _ (p : MirProgram) where
  functions : (fs : List MirFunction) → Decides (verify_functions p fs) (All (ValidFunction p) fs)
  unfolding verify_functions verify_function
  functions [] = Decides-nothing
  functions (f ∷ fs) = Decides-append (body p f.name _ _ _ _ _ _) (functions fs)

  each :
      (o : Option ℕ) (n : ℕ) (message code : String)
      → Decides
          (elim o [ none ↦ [] | some x ↦ add_error_if (leb n x) message unknown_span code ])
          (EachOf o (λ x. x < n))
  each none n message code = Decides-nothing
  each (some x) n message code = check _ message code (leb_iff n x)

  methods :
      (klass : MirClass) (xs : List MirClassMethod)
      → Decides (verify_methods p klass xs) (All (λ x. x.function < length p.functions) xs)
  unfolding verify_methods
  methods klass [] = Decides-nothing
  methods klass (x ∷ xs) = Decides-append (check _ _ _ (leb_iff _ _)) (methods klass xs)

  class : (klass : MirClass) → Decides (verify_class p klass) (ValidClass p klass)
  unfolding verify_class
  class klass =
      Decides-iff
        (Decides-append (each klass.parent _ _ _)
          (Decides-append (each klass.constructor _ _ _) (methods klass klass.methods)))
        (λ v. record { parent = v.0; constructor = v.1.0; methods = v.1.1 })
        λ v. (v.parent, (v.constructor, v.methods))

  classes : (ks : List MirClass) → Decides (verify_classes p ks) (All (ValidClass p) ks)
  unfolding verify_classes
  classes [] = Decides-nothing
  classes (k ∷ ks) = Decides-append (class k) (classes ks)

  verified : Decides (verify_mir p) (ValidProgram p)
  unfolding verify_mir
  verified =
      Decides-iff
        (Decides-append (body p "<module>" _ _ _ _ _ _)
          (Decides-append (functions p.functions) (classes p.classes)))
        (λ v. record { body = v.0; functions = v.1.0; classes = v.1.1 })
        λ v. (v.body, (v.functions, v.classes))

-- The verifier of the middle representation reports nothing on a program exactly when the program is
-- valid: every body has its entry block, room for its parameters, valid operands in each instruction (calls
-- have as many arguments as the function that is named has parameters, and closures as many sources as it
-- has captures, where the function with a number stands one place before it), a
-- valid terminator behind each block, and valid exception regions, and classes name classes and
-- functions that are there.
pub verify_mir_iff : (p : MirProgram) → (verify_mir p ≡ []) ↔ ValidProgram p
verify_mir_iff p = ((verified p).sound, (verified p).complete)
