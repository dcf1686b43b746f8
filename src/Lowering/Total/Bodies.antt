-- ===== src/Lowering/Total/Bodies.antt =====
-- compiler/kyna_mir/src/lowering/hir_lowering.cpp: the body of the module and those of the functions are valid.
use kyna.Base.{
  ℕ, zero, suc, ◌+◌, ◌≤◌, ◌<◌, ◌≡◌, refl, ◌⊎◌, inl, inr, false, List, [], ◌∷◌, none, some, arith,
  length, get_elem?, All, All-get_elem?, Yields, yields, bind-Yields, Yields-map,
}
use kyna.Diagnostics.{unknown_span}
use kyna.Mir.Program.{MirTerminatorNode, MirBasicBlock, MirProgram}
use kyna.Mir.Valid.{ValidBlock, ValidBody}
use kyna.Hir.{HirFunction, HirProgram}
use kyna.Lowering.States.{with_known}
use kyna.Lowering.{empty_block, temporary, bind_local, Lowering, lookup, constant}
use kyna.Lowering.Statements.{lower_expression, lower_statement}
use kyna.Lowering.Programs.{
  index_captures, activated, bind_parameters, finish_function, lower_function_body,
  lower_module_body,
}
use kyna.Lowering.Fits.{Scope, IsIn, ExprFits, StmtFits, StatementsFit, bound_by, enough}
use kyna.Lowering.States.{Frame, BlockFits, Inv, Open}
use kyna.Lowering.States.Steps.{Inv-weaken}
use kyna.Lowering.States.Frames.{found_cons, bind_local-Open}
use kyna.Lowering.States.Blocks.{temporary-Open, push-Open, terminate-Open, unless-Open}
use kyna.Lowering.Total.{Signature, Ready}
use kyna.Lowering.Total.Frames.{Done-Open}
use kyna.Lowering.Total.Statements.{lower_each-Done}
use kyna.Lowering.Total.Depth.{deep}

-- Nothing is around a body.
abbrev outside : List ℕ → Frame
outside known = record { known = known; loops = []; breaks = []; cleanups = [] }

abbrev pub body_scope : List ℕ → Scope
body_scope known = record { known = known; looped = false; breakable = false }

index_captures_below :
    (n index : ℕ) (found : List (ℕ × ℕ)) (locals : List ℕ)
    → index + length locals ≤ n
    → All (λ e. e.1 < n) found
    → All (λ e. e.1 < n) (index_captures index found locals)
unfolding index_captures
index_captures_below n index found [] h a = a
index_captures_below n index found (l ∷ locals) h a =
    index_captures_below n (index + 1) ((l, index) ∷ found) locals (omega arith) (omega arith, a)

index_captures_found :
    (index : ℕ) (keys : List ℕ) (found : List (ℕ × ℕ)) (locals : List ℕ)
    → ((k : ℕ) → IsIn k keys → (v : ℕ) × (lookup k found ≡ some v))
    → (k : ℕ) → IsIn k locals ⊎ IsIn k keys
    → (v : ℕ) × (lookup k (index_captures index found locals) ≡ some v)
unfolding index_captures
index_captures_found index keys found [] h k (inl i) = absurd i
index_captures_found index keys found [] h k (inr i) = h k i
index_captures_found index keys found (l ∷ locals) h k i =
    index_captures_found (index + 1) (l ∷ keys) ((l, index) ∷ found) locals
      (found_cons l index keys found h) k
      (elim i [ inl j ↦ elim j [ inl e ↦ inr (inl e) | inr m ↦ inl m ] | inr j ↦ inr (inr j) ])

one_block : (k : ℕ) (b : MirBasicBlock) → get_elem? (empty_block ∷ []) k ≡ some b → k ≡ 0
one_block zero b e = refl
one_block (suc k) b e = absurd (cc)

value_of : {A : Type 0} {P : A → Type 0} (a : A) → Yields P (some a) → P a
value_of a (yields y) = y

module _ (p : MirProgram) (captures : List ℕ) where
  abbrev Nothing : ℕ → Type 0
  Nothing k = ⊥

  activated-Open : Open p captures [] [] (outside []) Nothing (activated captures)
  unfolding activated
  activated-Open = record {
    here = omega arith;
    blocks = ((tt, inl refl), tt);
    pending = λ k b e n. inl (one_block k b e);
    regions = tt;
    locals = record { below = tt; found = λ k i. absurd i };
    indexes = record {
      below = index_captures_below (length captures) 0 [] captures (omega arith) tt;
      found = λ k i. index_captures_found 0 [] [] captures (λ k i. absurd i) k (inl i);
    };
    in_temporaries = tt;
    in_blocks = tt;
    loops = refl;
    loops_fit = tt;
    breaks = refl;
    breaks_fit = tt;
    cleanups = refl;
  }

  -- A list of temporaries that is below exactly the numbers that are not below a number.
  abbrev room_for : ℕ → List ℕ
  room_for zero = []
  room_for (suc n) = n ∷ []

  room_below : (n t : ℕ) → n ≤ t → All (λ x. x < t) (room_for n)
  room_below zero t h = tt
  room_below (suc n) t h = (omega arith, tt)

  room_above : (n t : ℕ) → All (λ x. x < t) (room_for n) → n ≤ t
  room_above zero t h = omega arith
  room_above (suc n) t h = omega (arith, h.0)

  temporary-counted :
      {ts cs : List ℕ} {g : Frame} {P : ℕ → Type 0} {s : Lowering}
      → Open p captures ts cs g P s
      → Yields
          (λ r.
            Open p captures (r.0 ∷ ts) cs g P r.1 × (r.1.temporary_count ≡ s.temporary_count + 1))
          (temporary s)
  unfolding temporary
  temporary-counted v = yields (value_of _ (temporary-Open v), refl)

  bind_local-counted :
      {ts cs : List ℕ} {g : Frame} {P : ℕ → Type 0} {s : Lowering} (local t : ℕ)
      → Open p captures ts cs g P s
      → t < s.temporary_count
      → Yields
          (λ r.
            Open p captures ts cs (with_known (local ∷ []) g) P r.1
            × (r.1.temporary_count ≡ s.temporary_count))
          (bind_local local t s)
  unfolding bind_local
  bind_local-counted local t v h = yields (value_of _ (bind_local-Open local t v h), refl)

  bind_parameters-Open :
      {ts cs : List ℕ} {P : ℕ → Type 0} (locals : List ℕ) (g : Frame) (s : Lowering)
      → Open p captures ts cs g P s
      → Yields
          (λ r.
            (known : List ℕ) × Open p captures ts cs (record g { known = known }) P r.1
            × ((k : ℕ) → IsIn k locals ⊎ IsIn k g.known → IsIn k known)
            × (r.1.temporary_count ≡ s.temporary_count + length locals))
          (bind_parameters locals s)
  unfolding bind_parameters
  bind_parameters-Open [] g s v =
      yields (g.known, v, (λ k i. elim i [ inl e ↦ absurd e | inr m ↦ m ]), omega arith)
  bind_parameters-Open (l ∷ locals) g s v = bind-Yields (temporary-counted v) λ t q.
      bind-Yields (bind_local-counted l t.0 q.0 q.0.in_temporaries.0) λ u w.
        Yields-map
          (λ r z. (
            z.0,
            Inv-weaken z.1 z.1.in_temporaries.1 z.1.in_blocks (λ k m. m),
            (λ k i. z.2 k (elim i [
              | inl j ↦ elim j [ inl e ↦ inr (inl e) | inr m ↦ inl m ]
              | inr m ↦ inr (inr m)
            ])),
            omega (arith, z.3, w.1, q.1),
          ))
          (bind_parameters-Open locals (with_known (l ∷ []) g) u.1 w.0)

  finish_function-Inv :
      {ts cs : List ℕ} {g : Frame} {P : ℕ → Type 0} {s : Lowering}
      → Open p captures ts cs g P s
      → Yields (λ r. Inv p captures ts cs g P r.1) (finish_function s)
  unfolding finish_function constant
  finish_function-Inv v =
      unless-Open _ v
        (bind-Yields (temporary-Open v) λ t v.
          bind-Yields (push-Open _ v (v.in_temporaries.0, tt)) λ u v.
            Yields-map (λ r w. Inv-weaken w w.in_temporaries.1 w.in_blocks λ k m. m)
              (terminate-Open (MirTerminatorNode.return t.0) unknown_span v v.in_temporaries.0))
        λ e w. w

  All-elements :
      {Q : MirBasicBlock → Type 0} (bs : List MirBasicBlock)
      → ((k : ℕ) (b : MirBasicBlock) → get_elem? bs k ≡ some b → Q b)
      → All Q bs
  All-elements [] f = tt
  All-elements (b ∷ bs) f = (f 0 b refl, All-elements bs λ k. f (suc k))

  block_valid :
      (t n : ℕ) (b : MirBasicBlock)
      → BlockFits p captures t n b
      → (b.terminator ≡ none → ⊥)
      → ValidBlock p t (length captures) n b
  block_valid t n b f w = (f.0, elim f.1 [ inl e ↦ absurd (w e) | inr v ↦ v ])

  -- A body whose blocks all have a terminator.
  pub body-Valid :
      {ts cs : List ℕ} {g : Frame} {s : Lowering} (parameters : ℕ)
      → parameters ≤ s.temporary_count
      → Inv p captures ts cs g Nothing s
      → ValidBody p s.temporary_count (length captures) parameters 0 s.blocks s.exception_regions
  body-Valid {s = s} parameters room v = record {
    entry = omega (arith, v.here);
    room = room;
    each_block =
        All-elements s.blocks
          λ k b e. block_valid _ _ b (All-get_elem? _ s.blocks k b v.blocks e) (v.pending k b e);
    each_region = v.regions;
  }

  outside-Ready :
      (hir : HirProgram) (known locals : List ℕ)
      → ((k : ℕ) → IsIn k locals → IsIn k known)
      → Ready hir captures 0 (body_scope locals) (outside known)
  outside-Ready hir known locals f = record {
    meets = record { known = f; looped = λ e. absurd (cc); breakable = λ e. absurd (cc) };
    cleanups = tt;
  }

module _ (hir : HirProgram) (p : MirProgram) (sig : Signature hir p) (n fuel : ℕ)
    (h : enough n ≤ fuel) where
  pub module_body-Valid :
      StatementsFit hir []
        (ExprFits hir [] n)
        (StmtFits hir [] n)
        (bound_by hir [] n)
        (body_scope [])
        hir.body
      → Yields
          (λ r. ValidBody p r.1.temporary_count 0 0 0 r.1.blocks r.1.exception_regions)
          (lower_module_body hir fuel (activated []))
  unfolding lower_module_body
  module_body-Valid f =
      let d = deep hir [] p sig fuel in
      bind-Yields
        (lower_each-Done hir [] p n 0 (lower_expression hir fuel) (lower_statement hir fuel)
          (d.expressions n 0 (omega arith)) (d.statements n 0 (omega arith)) hir.body (outside [])
          (body_scope []) f (outside-Ready p [] hir [] [] λ k i. i) (activated-Open p []))
        λ u e.
          Yields-map (λ r v. body-Valid p [] 0 (omega arith) v)
            (finish_function-Inv p [] (Done-Open e))

  pub function_body-Valid :
      (f : HirFunction)
      → StmtFits hir f.captures n (body_scope f.parameters) f.body
      → Yields
          (λ r.
            ValidBody p r.1.temporary_count
              (length f.captures)
              (length f.parameters)
              0
              r.1.blocks
              r.1.exception_regions)
          (lower_function_body hir fuel f (activated f.captures))
  unfolding lower_function_body
  function_body-Valid f fits =
      let d = deep hir f.captures p sig fuel in
      bind-Yields
        (bind_parameters-Open p f.captures f.parameters (outside []) (activated f.captures)
          (activated-Open p f.captures))
        λ u q.
          bind-Yields
            ((d.statements n 0 (omega arith)).statement_lowers f.body fits
              (outside-Ready p f.captures hir q.0 f.parameters λ k i. q.2 k (inl i))
              (Inv-weaken {us = room_for p f.captures (length f.parameters)} {ds = []} q.1
                (room_below p f.captures (length f.parameters) _ (omega (arith, q.3))) tt λ k m. m))
            λ u e.
              Yields-map
                (λ r v.
                  body-Valid p f.captures (length f.parameters)
                    (room_above p f.captures (length f.parameters) _ v.in_temporaries) v)
                (finish_function-Inv p f.captures (Done-Open e))
