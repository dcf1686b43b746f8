-- ===== src/Vm/Machine/Handlers.antt =====
-- runtime/kyna_vm/src/execution/bytecode_virtual_machine.cpp: which handler `unwindError` goes to, and the
-- machine that it leaves there.
use kyna.Base.{
  ℕ, ◌+◌, ◌-◌, ◌≤◌, ◌<◌, ◌≡◌, refl, ◌∙◌, List, [], ◌∷◌, Option, none, some, arith, get_elem?,
  Bool-cases, inl, inr, leb, ltb, ◌&&◌, ◌>>=◌, subst, All,
}
use kyna.Diagnostics.{SourceSpan}
use kyna.Bytecode.Program.{ExceptionHandler, BytecodeFunction, BytecodeModule}
use kyna.Vm.Value.{RuntimeValue, Platform}
use kyna.Vm.Machine.{
  Frame, Machine, Step, Unwound, find_handler, handle, search, read, read_cell, write, resume,
  unwind_error, runtime_diagnostic,
}
use kyna.Vm.Machine.Registers.{>>=-eq-some, read-write, write-Written, Written}

-- The handler protects the instruction.
abbrev pub Protects : ℕ → ExceptionHandler → Type 0
Protects fault h =
    (h.first_instruction ≤ fault) × (fault < h.first_instruction + h.instruction_count)

-- The first handler of a list that protects the instruction, and a list without one.
pub data First (fault : ℕ) (h : ExceptionHandler) : List ExceptionHandler → Type 0 where
  here : {handlers : List ExceptionHandler} → Protects fault h → First fault h (h ∷ handlers)
  later :
      {g : ExceptionHandler} {handlers : List ExceptionHandler}
      → (Protects fault g → ⊥)
      → First fault h handlers
      → First fault h (g ∷ handlers)

abbrev pub Unprotected : ℕ → List ExceptionHandler → Type 0
Unprotected fault = All λ h. Protects fault h → ⊥

-- An error at an instruction of a frame goes to a handler of the innermost frame that protects the
-- instruction, or in a frame behind it the call.
pub data Unwinds (m : BytecodeModule) (h : ExceptionHandler) (target : Frame) (behind : List Frame)
    : ℕ → Frame → List Frame → Type 0 where
  handled :
      {fault : ℕ} (f : BytecodeFunction)
      → get_elem? m.functions target.function ≡ some f
      → First fault h f.exception_handlers
      → Unwinds m h target behind fault target behind
  outward :
      {fault : ℕ} {frame c : Frame} {callers : List Frame} (f : BytecodeFunction)
      → get_elem? m.functions frame.function ≡ some f
      → Unprotected fault f.exception_handlers
      → Unwinds m h target behind (c.instruction_pointer - 1) c callers
      → Unwinds m h target behind fault frame (c ∷ callers)

-- What `find_handler` finds.
abbrev Found : ℕ → List ExceptionHandler → Option ExceptionHandler → Type 0
Found fault handlers none = Unprotected fault handlers
Found fault handlers (some h) = First fault h handlers

Found-later :
    (fault : ℕ) (g : ExceptionHandler) (handlers : List ExceptionHandler)
    (found : Option ExceptionHandler)
    → (Protects fault g → ⊥)
    → Found fault handlers found
    → Found fault (g ∷ handlers) found
Found-later fault g handlers none apart x = (apart, x)
Found-later fault g handlers (some h) apart x = later apart x

find_handler-Found :
    (fault : ℕ) (handlers : List ExceptionHandler)
    → Found fault handlers (find_handler fault handlers)
unfolding find_handler
find_handler-Found fault [] = tt
find_handler-Found fault (h ∷ handlers) =
    elim (Bool-cases
      (leb h.first_instruction fault && ltb (fault - h.first_instruction) h.instruction_count)) [
        | inl covers ↦ rw (covers, find_handler) (here (ground arith))
        | inr apart ↦
            rw (apart, find_handler)
              (Found-later fault h handlers _ (λ p. ground arith)
                (find_handler-Found fault handlers))
      ]

module _ (m : BytecodeModule) where
  handle-Unwinds :
      (fault : ℕ) (frame : Frame) (callers : List Frame) (f : BytecodeFunction)
      (outer : Option Unwound) (h : ExceptionHandler) (target : Frame) (behind : List Frame)
      (found : Option ExceptionHandler)
      → get_elem? m.functions frame.function ≡ some f
      → Found fault f.exception_handlers found
      → (Unprotected fault f.exception_handlers
          → outer ≡ some (Unwound.caught h target behind)
          → Unwinds m h target behind fault frame callers)
      → handle found frame callers outer ≡ some (Unwound.caught h target behind)
      → Unwinds m h target behind fault frame callers
  unfolding handle
  handle-Unwinds fault frame callers f outer h target behind none at x go e = go x e
  handle-Unwinds fault frame callers f outer h target behind (some g) at x go e =
      let same : h ≡ g = cc in
      let there : target ≡ frame = cc in
      let rest : behind ≡ callers = cc in rw (same, there, rest) (handled f at x)

  search-Unwinds :
      (callers : List Frame) (fault : ℕ) (frame : Frame) (h : ExceptionHandler) (target : Frame)
      (behind : List Frame)
      → search m fault frame callers ≡ some (Unwound.caught h target behind)
      → Unwinds m h target behind fault frame callers
  unfolding search
  search-Unwinds [] fault frame h target behind e =
      let (f, at, e') = >>=-eq-some (get_elem? m.functions frame.function) _ e in
      handle-Unwinds fault frame [] f _ h target behind _ at
        (find_handler-Found fault f.exception_handlers) (λ _ e''. absurd (cc)) e'
  search-Unwinds (c ∷ callers) fault frame h target behind e =
      let (f, at, e') = >>=-eq-some (get_elem? m.functions frame.function) _ e in
      handle-Unwinds fault frame (c ∷ callers) f _ h target behind _ at
        (find_handler-Found fault f.exception_handlers)
        (λ apart e''. outward f at apart (search-Unwinds callers _ c h target behind e'')) e'

  -- The machine `s'` stands at the handler of a frame, with the frames behind it, and has the error in the
  -- handler's register.
  pub record Resumes (error : ℕ) (h : ExceptionHandler) (target : Frame) (behind : List Frame)
      (s' : Machine) : Type 0 where
    pub pointer : s'.frame.instruction_pointer ≡ h.handler_instruction
    pub function : s'.frame.function ≡ target.function
    pub callers : s'.callers ≡ behind
    pub register : read s' h.error_register ≡ some (RuntimeValue.error error)

  Written-still :
      {s s' : Machine} {index : ℕ} {v : RuntimeValue}
      → Written s index v s'
      → (s'.callers ≡ s.callers) × (s'.frame.function ≡ s.frame.function)
  Written-still (Written.plain at l) = (refl, refl)
  Written-still (Written.shared c at l) = (refl, refl)

  read-pointer :
      (s : Machine) (n index : ℕ)
      → read (record s { frame = record s.frame { instruction_pointer = n } }) index ≡ read s index
  unfolding read read_cell
  read-pointer s n index = pointed (get_elem? s.frame.register_cells index)
    where
      pointed :
          (cell : Option (Option ℕ))
          → (cell >>= λ c.
              read_cell (record s { frame = record s.frame { instruction_pointer = n } }) index c)
            ≡ (cell >>= λ c. read_cell s index c)
      pointed none = refl
      pointed (some none) = refl
      pointed (some (some c)) = refl

  module _ (p : Platform) where
    resume-Resumes :
        (error : ℕ) (span : SourceSpan) (s s' : Machine) (found : Unwound)
        → search m s.frame.instruction_pointer s.frame s.callers ≡ some found
        → resume m p error span s found ≡ some (Step.running s')
        → (h : ExceptionHandler) × (target : Frame) × (behind : List Frame) × Unwinds m h target
            behind s.frame.instruction_pointer s.frame s.callers
          × Resumes error h target behind s'
    unfolding resume
    resume-Resumes error span s s' Unwound.uncaught at e =
        let (x, _, e') = >>=-eq-some (get_elem? s.heap.errors error) _ e in
        let (d, _, e'') = >>=-eq-some (runtime_diagnostic m _ _ span _ _ s) _ e' in absurd (cc)
    resume-Resumes error span s s' (Unwound.caught h target behind) at e =
        let start : Machine = record { frame = target; callers = behind; heap = s.heap } in
        let (t, wrote, e') =
          >>=-eq-some (write start h.error_register (RuntimeValue.error error)) _ e in
        let kept = Written-still (write-Written start t _ _ wrote) in
        (
          h,
          target,
          behind,
          search-Unwinds s.callers s.frame.instruction_pointer s.frame h target behind at,
          subst (Resumes error h target behind) (cc) (record {
            pointer = refl;
            function = kept.1;
            callers = kept.0;
            register =
                read-pointer t h.handler_instruction h.error_register
                ∙ (read-write start t h.error_register (RuntimeValue.error error) wrote).0;
          }),
        )

    -- If a machine goes on after `unwindError`, then at the handler of the innermost frame that has one
    -- for the instruction at its pointer, or in a frame behind the first for the call: the first handler
    -- of that frame that protects it. The frames above it are gone, those behind it are as they were, and
    -- the handler's register reads as the error.
    pub unwind_error-Resumes :
        (error : ℕ) (span : SourceSpan) (s s' : Machine)
        → unwind_error m p error span s ≡ some (Step.running s')
        → (h : ExceptionHandler) × (target : Frame) × (behind : List Frame) × Unwinds m h target
            behind s.frame.instruction_pointer s.frame s.callers
          × Resumes error h target behind s'
    unfolding unwind_error
    unwind_error-Resumes error span s s' e =
        let (found, at, e') =
          >>=-eq-some (search m s.frame.instruction_pointer s.frame s.callers) _ e in
        resume-Resumes error span s s' found at e'
