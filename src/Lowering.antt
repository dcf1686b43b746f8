-- ===== src/Lowering.antt =====
-- compiler/kyna_mir/src/lowering/hir_lowering.cpp: the state of `HirLowerer` while it lowers a body, and its
-- helpers. `none` stands for a `std::out_of_range` of `at`, and for an access to nothing at all, such as
-- the last loop where there is none.

pub mod Expressions
pub mod Statements
pub mod Programs
pub mod Fits
pub mod States
pub mod Total
mod Tests
use kyna.Base.{
  ℕ, zero, suc, ◌+◌, ◌-◌, Bool, true, false, not, List, [], ◌∷◌, ◌++◌, Option, none, some, String,
  length, get_elem?, set, ◌==◌, if◌then◌else◌, str_eq,
}
use kyna.Base
use kyna.Diagnostics.{SourceSpan}
use kyna.Bytecode.Program.{BytecodeConstant}
use kyna.Mir.Program.{
  HirConstant, MirInstructionKind, MirInstruction, MirTerminatorNode, MirExceptionRegion,
  MirBasicBlock,
}

pub record LoopContext : Type 0 where
  pub label : String
  pub break_target : ℕ
  pub continue_target : ℕ

-- The last loop, break target and cleanup stand first.
pub record Lowering : Type 0 where
  pub temporary_count : ℕ
  pub blocks : List MirBasicBlock
  pub exception_regions : List MirExceptionRegion
  pub current_block : ℕ
  pub locals : List (ℕ × ℕ)
  pub capture_indexes : List (ℕ × ℕ)
  pub loops : List LoopContext
  pub breaks : List ℕ
  pub cleanups : List ℕ

abbrev pub Lower : Type 0 → Type 0
Lower A = Lowering → Option (A × Lowering)

infixl 5 ◌>>=◌ ◌>>◌
abbrev pub ◌>>=◌ : {A B : Type 0} → Lower A → (A → Lower B) → Lower B
◌>>=◌ m f s = Base.◌>>=◌ (m s) λ r. f r.0 r.1

abbrev pub ◌>>◌ : {A B : Type 0} → Lower A → Lower B → Lower B
◌>>◌ m k = m >>= λ _. k

abbrev pub give : {A : Type 0} → A → Lower A
give a s = some (a, s)

-- An `at`, or a value that may not be there.
abbrev pub need : {A : Type 0} → Option A → Lower A
need o s = Base.◌>>=◌ o λ a. some (a, s)

abbrev pub get : Lower Lowering
get s = some (s, s)

unfoldable pub temporary : Lower ℕ
temporary s = some (s.temporary_count, record s { temporary_count = s.temporary_count + 1 })

abbrev pub empty_block : MirBasicBlock
empty_block = record { instructions = []; terminator = none }

unfoldable pub add_block : Lower ℕ
add_block s = some (length s.blocks, record s { blocks = s.blocks ++ empty_block ∷ [] })

-- `current()`.
unfoldable pub current : Lowering → Option MirBasicBlock
current s = get_elem? s.blocks s.current_block

-- `current().instructions.push_back(…)`.
unfoldable pub push : MirInstruction → Lower (Unit {0})
push i s = Base.◌>>=◌ (current s) λ b. some (
  tt,
  record s {
    blocks = set s.blocks s.current_block (record b { instructions = b.instructions ++ i ∷ [] });
  },
)

unfoldable pub terminate : MirTerminatorNode → SourceSpan → Lower (Unit {0})
terminate node span s = Base.◌>>=◌ (current s) λ b. some (
  tt,
  record s {
    blocks =
        set s.blocks s.current_block
          (record b { terminator = some (record { node = node; span = span }) });
  },
)

-- `current().terminator`, as a test.
unfoldable pub has_terminator : MirBasicBlock → Bool
has_terminator b = elim b.terminator [ none ↦ false | some t ↦ true ]

unfoldable pub terminated : Lower Bool
terminated s = Base.◌>>=◌ (current s) λ b. some (has_terminator b, s)

-- `if (!current().terminator) …`
unfoldable pub unless_terminated : Lower (Unit {0}) → Lower (Unit {0})
unless_terminated m = do closed ← terminated; if closed then give tt else m

-- `currentBlock = block;`
unfoldable pub enter : ℕ → Lower (Unit {0})
enter block s = some (tt, record s { current_block = block })

-- `find` in a map, and `insert_or_assign`: the entry that is put first is found.
unfoldable pub lookup : ℕ → List (ℕ × ℕ) → Option ℕ
lookup k [] = none
lookup k ((j, v) ∷ entries) = if j == k then some v else lookup k entries

unfoldable pub bind_local : ℕ → ℕ → Lower (Unit {0})
bind_local local t s = some (tt, record s { locals = (local, t) ∷ s.locals })

-- An instruction of a kind with a destination and a span, all else as by default.
abbrev pub instruction : MirInstructionKind → ℕ → SourceSpan → MirInstruction
instruction kind destination span = record {
  kind = kind;
  destination = destination;
  first = 0;
  second = 0;
  constant = BytecodeConstant.null;
  span = span;
  function = 0;
  arguments = [];
  capture = 0;
  capture_sources = [];
  names = [];
}

unfoldable pub move : ℕ → ℕ → SourceSpan → Lower (Unit {0})
move target source span =
    push (record (instruction MirInstructionKind.move target span) { first = source })

unfoldable pub constant : HirConstant → ℕ → SourceSpan → Lower (Unit {0})
constant value target span =
    push (record (instruction MirInstructionKind.constant target span) { constant = value })

unfoldable pub push_loop : String → ℕ → ℕ → Lower (Unit {0})
push_loop label break_target continue_target s = some (
  tt,
  record s {
    loops =
        record { label = label; break_target = break_target; continue_target = continue_target }
        ∷ s.loops;
    breaks = break_target ∷ s.breaks;
  },
)

abbrev pub rest {ℓ} : {A : Type ℓ} → List A → List A
rest [] = []
rest (x ∷ xs) = xs

unfoldable pub pop_loop : Lower (Unit {0})
pop_loop s = some (tt, record s { loops = rest s.loops; breaks = rest s.breaks })

unfoldable pub push_break : ℕ → Lower (Unit {0})
push_break target s = some (tt, record s { breaks = target ∷ s.breaks })

unfoldable pub pop_break : Lower (Unit {0})
pop_break s = some (tt, record s { breaks = rest s.breaks })

unfoldable pub set_cleanups : List ℕ → Lower (Unit {0})
set_cleanups cleanups s = some (tt, record s { cleanups = cleanups })

unfoldable pub push_cleanup : Option ℕ → Lower (Unit {0})
push_cleanup none s = some (tt, s)
push_cleanup (some statement) s = some (tt, record s { cleanups = statement ∷ s.cleanups })

unfoldable pub pop_cleanup : Option ℕ → Lower (Unit {0})
pop_cleanup none s = some (tt, s)
pop_cleanup (some statement) s = some (tt, record s { cleanups = rest s.cleanups })

-- `loops.back()`.
unfoldable pub last_loop : List LoopContext → Option LoopContext
last_loop [] = none
last_loop (l ∷ loops) = some l

unfoldable pub labelled : String → List LoopContext → Option LoopContext
labelled label [] = none
labelled label (l ∷ loops) = if str_eq l.label label then some l else labelled label loops

unfoldable pub loop_target : String → List LoopContext → Option LoopContext
loop_target label loops =
    if str_eq label ""
    then last_loop loops
    else elim (labelled label loops) [ some l ↦ some l | none ↦ last_loop loops ]

unfoldable pub last_break : List ℕ → Option ℕ
last_break [] = none
last_break (b ∷ breaks) = some b

unfoldable pub break_target : String → Lowering → Option ℕ
break_target label s =
    if str_eq label ""
    then last_break s.breaks
    else elim (loop_target label s.loops) [ some l ↦ some l.break_target | none ↦ none ]

unfoldable pub add_region : List ℕ → ℕ → ℕ → Lower (Unit {0})
add_region protected handler error s = some (
  tt,
  record s {
    exception_regions =
        s.exception_regions
        ++ record { protected_blocks = protected; handler = handler; error_destination = error }
          ∷ [];
  },
)

-- The numbers from the first on, so many of them.
unfoldable pub numbers : ℕ → ℕ → List ℕ
numbers first zero = []
numbers first (suc n) = first ∷ numbers (first + 1) n

-- `blocksFrom`.
unfoldable pub blocks_from : ℕ → Lower (List ℕ)
blocks_from first s = some (numbers first (length s.blocks - first), s)
