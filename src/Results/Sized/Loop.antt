-- ===== src/Results/Sized/Loop.antt =====
-- The loop of the constructor computes the helpers that the subtrees determine.
use mathlib.Core.List.{append_assoc, append-nil}
use object_introspection.Prelude.{
  ℕ, suc, ◌+◌, ◌-◌, ◌^◌, ◌<◌, ◌≡◌, refl, sym, ◌∙◌, ap, subst, All, List, [], ◌∷◌, ◌++◌, arith,
  length, add_u64, length-append,
}
use object_introspection.Results.{Element}
use object_introspection.Results.Sized.{
  SizeHelper, StackEntry, Sizing, start, depth_of, set_last, close, size_step, size_all, close_all,
  size_helpers,
}
use object_introspection.Results.Sized.Helpers.{
  deeper, helpers_from, settle, IsStack, settle-append, settle-close, close-IsStack, settle_shift,
  close_all-settle, set_last_end,
}

-- The index of the state is the number of its helpers, and its stack lies below it.
record IsLoop (s : Sizing) : Type 0 where
  counted : length s.helpers ≡ s.seen
  stacked : IsStack s.seen s.stack

IsStack-suc : (k : ℕ) (st : List StackEntry) → IsStack k st → IsStack (suc k) st
IsStack-suc k [] h = tt
IsStack-suc k (s ∷ st) h = (omega arith, h.1, IsStack-suc k st h.2)

size_step-IsLoop : (e : Element) (s : Sizing) → IsLoop s → IsLoop (size_step e s)
unfolding size_step
size_step-IsLoop e s h =
    let (stacked, low, same) =
      close-IsStack s.seen (depth_of e) (s.seen - 1) s.stack s.helpers h.stacked in
    let hs = (close (depth_of e) (s.seen - 1) s.stack s.helpers).1 in
    let new : SizeHelper = record {
      size = add_u64 s.size e.exclusive_size;
      last_child = 2 ^ 64 - 1;
    } in
    record {
      counted = omega (arith, length-append hs (new ∷ []), same, h.counted);
      stacked = (
        omega arith,
        low,
        IsStack-suc s.seen (close (depth_of e) (s.seen - 1) s.stack s.helpers).0 stacked,
      );
    }

-- An element pushed, with its entry on the stack, once the entries that it ends are closed.
pushed :
    (k size : ℕ) (e : Element) (es : List Element) (st : List StackEntry)
    (hs tail : List SizeHelper)
    → length hs ≡ k
    → IsStack k st
    → All (λ t. t.depth < depth_of e) st
    → let n = length (deeper (depth_of e) es) in
      settle
          (suc k)
          es
          st
          (set_last (hs ++ record { size = size; last_child = 2 ^ 64 - 1 } ∷ []) k (suc k - 1 + n))
        ++ tail
      ≡ settle k (e ∷ es) st hs ++ record { size = size; last_child = k + n } ∷ tail
pushed k size e es st hs tail counted stacked low =
    let n = length (deeper (depth_of e) es) in
    let helper : ℕ → SizeHelper = λ v. record { size = size; last_child = v } in
    let unset = hs ++ helper (2 ^ 64 - 1) ∷ [] in
    let at : suc k - 1 + n ≡ k + n = omega arith in
    let closed : set_last unset k (suc k - 1 + n) ≡ hs ++ helper (k + n) ∷ [] =
      ap (λ i. set_last unset i (suc k - 1 + n)) (sym counted)
      ∙ set_last_end hs size (suc k - 1 + n) (2 ^ 64 - 1)
      ∙ ap (λ v. hs ++ helper v ∷ []) at in
    ap (λ l. settle (suc k) es st l ++ tail) closed
    ∙ ap (λ l. l ++ tail)
        (settle-append (suc k) es st hs (helper (k + n) ∷ [])
          (subst (λ m. IsStack m st) (sym counted) stacked))
    ∙ append_assoc (settle (suc k) es st hs) (helper (k + n) ∷ []) tail
    ∙ ap (λ l. l ++ helper (k + n) ∷ tail) (sym (settle_shift k e es st hs stacked low))

one_step :
    (e : Element) (es : List Element) (s : Sizing)
    → IsLoop s
    → let t = size_step e s in
      settle t.seen es t.stack t.helpers ++ helpers_from t.seen t.size es
      ≡ settle s.seen (e ∷ es) s.stack s.helpers ++ helpers_from s.seen s.size (e ∷ es)
unfolding size_step helpers_from settle
one_step e es s h =
    let (stacked, low, same) =
      close-IsStack s.seen (depth_of e) (s.seen - 1) s.stack s.helpers h.stacked in
    let r = close (depth_of e) (s.seen - 1) s.stack s.helpers in
    let total = add_u64 s.size e.exclusive_size in
    let tail = helpers_from (suc s.seen) total es in
    pushed s.seen total e es r.0 r.1 tail (same ∙ h.counted) stacked low
    ∙ ap
        (λ l.
          l
          ++ record { size = total; last_child = s.seen + length (deeper (depth_of e) es) } ∷ tail)
        (sym (settle-close s.seen e es s.stack s.helpers))

-- What the loop and the closing behind it leave, from any state of the loop.
size_all_lem :
    (es : List Element) (s : Sizing)
    → IsLoop s
    → let s' = size_all es s in
      close_all (s'.seen - 1) s'.stack s'.helpers
      ≡ settle s.seen es s.stack s.helpers ++ helpers_from s.seen s.size es
unfolding size_all helpers_from
size_all_lem [] s h =
    close_all-settle s.seen s.stack s.helpers
    ∙ sym (append-nil (settle s.seen [] s.stack s.helpers))
size_all_lem (e ∷ es) s h =
    size_all_lem es (size_step e s) (size_step-IsLoop e s h) ∙ one_step e es s h

pub size_helpers-eq : (es : List Element) → size_helpers es ≡ helpers_from 0 0 es
unfolding size_helpers settle
size_helpers-eq es = size_all_lem es start (record { counted = refl; stacked = tt })
